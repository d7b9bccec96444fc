-- ===== src/Gossip/Tests.antt =====
-- Registries at which the theorems on them are applied.
use arxia.Prelude.{◌≡◌, refl, [], ◌∷◌}
use arxia.Prelude.Ord.{cmp_str}
use arxia.Prelude.Map.{lookup, insert}
use arxia.Gossip.NonceRegistry.{
  NonceRegistry, merge_nonce_registries, sync_nonces_before_l1, success,
}
use arxia.Gossip.NonceRegistry.Sync.{sync_after_merge}

abbrev local : NonceRegistry
local = (((1 ∷ []), 1), (7 ∷ [])) ∷ []

abbrev remote : NonceRegistry
remote = (((1 ∷ []), 1), (7 ∷ [])) ∷ (((1 ∷ []), 2), (8 ∷ [])) ∷ []

sync_after_merge_example :
    sync_nonces_before_l1
      (merge_nonce_registries local remote).0
      (merge_nonce_registries remote local).0
    ≡ success
unfolding cmp_str merge_nonce_registries lookup insert
sync_after_merge_example =
    sync_after_merge local remote (tt, tt) ((refl, tt), (tt, tt)) refl (λ e. cc e)
