-- ===== src/Crdt/OrSet/Convergence.antt =====
-- What a merged set contains.
use arxia.Prelude.{true, ◌||◌, ◌≡◌, refl, none, some, Option, [], ◌∷◌, arith}
use arxia.Prelude.Ord.{Ord, Str, str_ord}
use arxia.Prelude.Map.{Set, lookup, insert, IsSorted}
use arxia.Prelude.Map.Laws.{lookup-insert_self, lookup-remove_self}
use arxia.Prelude.Map.Merge.{merge_by, merged, lookup-merge_by}
use arxia.Crdt.OrSet.{
  OrSet, add, remove_element, contains, merge, has_tags, add_tags, insert_tag, tag_of,
}
use arxia.Prelude.Words.{saturating_add}

insert-has_tags : (t : Str) (m : Set Str) → has_tags (some (insert t tt m)) ≡ true
unfolding insert
insert-has_tags t [] = refl
insert-has_tags t ((j, v) ∷ m) = ground arith

merge_by-has_tags :
    (m w : Set Str)
    → has_tags (some (merge_by (λ _ _. tt) m w)) ≡ has_tags (some m) || has_tags (some w)
unfolding merge_by
merge_by-has_tags m [] = ground arith
merge_by-has_tags m ((t, u) ∷ w) =
    ground (arith, merge_by-has_tags (insert t tt m) w, insert-has_tags t m)

insert_tag-has_tags : (t : Str) (x : Option (Set Str)) → has_tags (some (insert_tag t x)) ≡ true
insert_tag-has_tags t none = insert-has_tags t []
insert_tag-has_tags t (some m) = insert-has_tags t m

merged-has_tags :
    (x y : Option (Set Str)) → has_tags (merged add_tags x y) ≡ has_tags x || has_tags y
merged-has_tags x none = ground arith
merged-has_tags none (some w) = merge_by-has_tags [] w
merged-has_tags (some m) (some w) = merge_by-has_tags m w

module _ {ℓ} {T : Type ℓ} ⦃o : Ord T⦄ where
  -- A merged set contains what either part contains, where the map that is merged in is in order
  -- of its keys.
  pub contains-merge :
      (x : T) (s t : OrSet T)
      → IsSorted t.elements
      → contains x (merge s t) ≡ contains x s || contains x t
  unfolding contains merge
  contains-merge x s t ord =
      rw (lookup-merge_by add_tags x s.elements t.elements ord)
        (merged-has_tags (lookup x s.elements) (lookup x t.elements))

  contains-add_self : (x : T) (s : OrSet T) → contains x (add x s) ≡ true
  unfolding contains add
  contains-add_self x s = ground (
    arith,
    lookup-insert_self x
        (insert_tag (tag_of s.node_id (saturating_add s.tag_counter 1)) (lookup x s.elements))
        s.elements,
    insert_tag-has_tags (tag_of s.node_id (saturating_add s.tag_counter 1)) (lookup x s.elements),
  )

  -- Where both maps are in order of their keys, removal is local: a set that removed an element
  -- and then merges another one contains the element exactly if the other one does, whether or not
  -- that one had seen only tags which the first had seen as well.
  pub contains-merge-remove_element :
      (x : T) (s t : OrSet T)
      → IsSorted s.elements
      → IsSorted t.elements
      → contains x (merge (remove_element x s).1 t) ≡ contains x t
  unfolding contains remove_element
  contains-merge-remove_element x s t a b =
      ground (arith, contains-merge x (remove_element x s).1 t b, lookup-remove_self x s.elements a)
