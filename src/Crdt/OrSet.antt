-- ===== src/Crdt/OrSet.antt =====
-- crates/arxia-crdt/src/or_set.rs
pub mod Convergence
use arxia.Prelude.{ℕ, Bool, true, false, Option, none, some, [], ◌∷◌, ◌++◌, length}
use arxia.Prelude.Ord.{Ord, Str, str_ord}
use arxia.Prelude.Map.{Map, Set, lookup, insert, remove, contains_key}
use arxia.Prelude.Map.Merge.{merge_by}
use arxia.Prelude.Words.{saturating_add}
use arxia.Lattice.Block.{decimal}

module _ {ℓ} (T : Type ℓ) where
  pub record OrSet : Type ℓ where
    pub elements : Map T (Set Str)
    pub tag_counter : ℕ
    pub node_id : Str

-- `is_empty` of the tags of an element
abbrev pub has_tags : Option (Set Str) → Bool
has_tags none = false
has_tags (some []) = false
has_tags (some (_ ∷ _)) = true

-- `tags.insert(tag)` for every other tag, into `entry(elem).or_default()`
abbrev pub add_tags : Option (Set Str) → Set Str → Set Str
add_tags none other_tags = merge_by (λ _ _. tt) [] other_tags
add_tags (some tags) other_tags = merge_by (λ _ _. tt) tags other_tags

abbrev pub insert_tag : Str → Option (Set Str) → Set Str
insert_tag tag none = insert tag tt []
insert_tag tag (some tags) = insert tag tt tags

-- `format!("{}:{}", self.node_id, self.tag_counter)`
abbrev pub tag_of : Str → ℕ → Str
tag_of node_id n = node_id ++ (58 ∷ decimal n)

module _ {ℓ} {T : Type ℓ} ⦃o : Ord T⦄ where
  -- `ORSet::new`
  pub new : Str → OrSet T
  new node_id = record { elements = []; tag_counter = 0; node_id = node_id }

  pub add : T → OrSet T → OrSet T
  add element s =
      let tag_counter = saturating_add s.tag_counter 1 in
      let tag = tag_of s.node_id tag_counter in
      record {
        elements = insert element (insert_tag tag (lookup element s.elements)) s.elements;
        tag_counter = tag_counter;
        node_id = s.node_id;
      }

  -- `remove`: whether the element was there, and the set without it.
  pub remove_element : T → OrSet T → Bool × OrSet T
  remove_element element s =
      (contains_key element s.elements, record s { elements = remove element s.elements })

  unfoldable pub contains : T → OrSet T → Bool
  contains element s = has_tags (lookup element s.elements)

  unfoldable pub merge : OrSet T → OrSet T → OrSet T
  merge s other = record s { elements = merge_by add_tags s.elements other.elements }

  abbrev pub len : OrSet T → ℕ
  len s = length s.elements
