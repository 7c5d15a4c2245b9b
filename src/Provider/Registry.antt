-- ===== src/Provider/Registry.antt =====
-- The registry of handles (cmd/ksp/provider_windows.go, `registerHandle`, `lookupHandle` and
-- `freeHandle`). Each runs under the registry's lock, so a history of the registry is a sequence of
-- whole operations.
pub mod History
use infisical_ksp.Base.{ℕ, ◌+◌, ◌%◌, ◌^◌, Option, List, [], nat_eq}
use infisical_ksp.Base.Dict.{Dict, lookup, insert, erase}

-- `uintptr_bits` is the width of a `uintptr`: 64, and 32 in the DLL for x86. It does not change.
pub record Registry (V : Type 0) : Type 0 where
  pub handles : Dict ℕ V
  pub next_handle : ℕ
  pub uintptr_bits : ℕ

module _ {V : Type 0} where
  abbrev pub empty_registry : ℕ → Registry V
  empty_registry bits = record { handles = []; next_handle = 1; uintptr_bits = bits }

  -- The new handle, and the registry.
  unfoldable pub register_handle : V → Registry V → ℕ × Registry V
  register_handle v reg =
      let h = reg.next_handle in
      (
        h,
        record reg {
          handles = insert h v reg.handles;
          next_handle = (reg.next_handle + 1) % 2 ^ reg.uintptr_bits;
        },
      )

  unfoldable pub lookup_handle : ℕ → Registry V → Option V
  lookup_handle h reg = lookup h reg.handles

  unfoldable pub free_handle : ℕ → Registry V → Registry V
  free_handle h reg = record reg { handles = erase h reg.handles }
