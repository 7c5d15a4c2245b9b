-- ===== src/Provider/Registry/History.antt =====
-- What a history of operations leaves in the registry.
use infisical_ksp.Base.{
  ℕ, suc, ◌-◌, ◌^◌, ◌<◌, nat_beq, nat_eq, Option, none, some, List, [], ◌∷◌, ◌≡◌, ◌≢◌, refl, sym,
  ◌∙◌, if◌then◌else◌, arith,
}
use native.Mathlib.Nat.{mod-eq_of_lt}
use infisical_ksp.Base.Dict.{lookup, lookup-insert, lookup-erase}
use infisical_ksp.Provider.Registry.{
  Registry, empty_registry, register_handle, lookup_handle, free_handle,
}

-- The operations that change the registry.
pub data Event (V : Type 0) : Type 0 where
  registered : V → Event V
  freed : ℕ → Event V

module _ {V : Type 0} (bits : ℕ) where
  unfoldable pub apply_event : Event V → Registry V → Registry V
  apply_event (registered v) reg = (register_handle v reg).1
  apply_event (freed h) reg = free_handle h reg

  -- The registry behind a history, the newest event first.
  unfoldable pub replay : List (Event V) → Registry V
  replay [] = empty_registry bits
  replay (e ∷ history) = apply_event e (replay history)

  -- The handle that the next registration behind a history returns.
  unfoldable pub given : V → List (Event V) → ℕ
  given v history = (register_handle v (replay history)).0

  unfoldable pub registrations : List (Event V) → ℕ
  registrations [] = 0
  registrations (registered v ∷ history) = suc (registrations history)
  registrations (freed h ∷ history) = registrations history

  -- What a handle should stand for: the n-th registration's value has the handle n, until that
  -- handle is freed.
  unfoldable pub meant : ℕ → List (Event V) → Option V
  meant h [] = none
  meant h (registered v ∷ history) =
      let older = meant h history in
      if nat_beq h (suc (registrations history)) then some v else older
  meant h (freed k ∷ history) = let older = meant h history in if nat_beq h k then none else older

  uintptr_bits-replay : (history : List (Event V)) → (replay history).uintptr_bits ≡ bits
  unfolding replay apply_event register_handle free_handle
  uintptr_bits-replay [] = refl
  uintptr_bits-replay (registered v ∷ history) = uintptr_bits-replay history
  uintptr_bits-replay (freed k ∷ history) = uintptr_bits-replay history

  next_handle-replay :
      (history : List (Event V))
      → registrations history < 2 ^ bits - 1
      → (replay history).next_handle ≡ suc (registrations history)
  unfolding replay registrations apply_event register_handle free_handle
  next_handle-replay [] h = refl
  next_handle-replay (registered v ∷ history) h =
      let older = next_handle-replay history (omega arith) in
      rw (uintptr_bits-replay history, older) (mod-eq_of_lt (omega (arith, h)) ∙ omega arith)
  next_handle-replay (freed k ∷ history) h = next_handle-replay history h

  -- No registration of the history has returned the handle.
  unfoldable pub IsFresh : ℕ → List (Event V) → Type 0
  IsFresh h [] = Unit
  IsFresh h (registered v ∷ history) = (h ≢ given v history) × IsFresh h history
  IsFresh h (freed k ∷ history) = IsFresh h history

  IsFresh-number :
      (h : ℕ) (history : List (Event V))
      → registrations history < h
      → registrations history < 2 ^ bits - 1
      → IsFresh h history
  unfolding IsFresh registrations given register_handle
  IsFresh-number h [] k m = tt
  IsFresh-number h (registered v ∷ history) k m = (
    λ e. omega (arith, e, next_handle-replay history (omega arith)),
    IsFresh-number h history (omega arith) (omega arith),
  )
  IsFresh-number h (freed j ∷ history) k m = IsFresh-number h history k m

  lookup-replay :
      (history : List (Event V)) (h : ℕ)
      → registrations history < 2 ^ bits - 1
      → lookup_handle h (replay history) ≡ meant h history
  unfolding replay registrations meant apply_event register_handle free_handle lookup_handle
  lookup-replay [] h k = unfold lookup in refl
  lookup-replay (registered v ∷ history) h k =
      lookup-insert h (replay history).next_handle v (replay history).handles
      ∙ rw (next_handle-replay history (omega arith))
          (rw (sym (lookup-replay history h (omega arith))) refl)
  lookup-replay (freed j ∷ history) h k =
      lookup-erase h j (replay history).handles ∙ rw (sym (lookup-replay history h k)) refl

  -- Behind every history with fewer than 2 ^ bits - 1 registrations, where `bits` is the width of a
  -- `uintptr`: the next registration returns its own number, counted from one, which no other one of
  -- the history has returned; and a handle stands for the value of the registration that it numbers,
  -- until it is freed, so that no registration replaces another one's value, and freeing a handle
  -- frees no other.
  pub lookup_handle-replay :
      (history : List (Event V)) (v : V) (h : ℕ)
      → registrations history < 2 ^ bits - 1
      → (given v history ≡ suc (registrations history))
        × IsFresh (given v history) history
        × (lookup_handle h (replay history) ≡ meant h history)
  unfolding given register_handle
  lookup_handle-replay history v h k =
      let number = next_handle-replay history k in
      (
        number,
        IsFresh-number (replay history).next_handle history (omega (arith, number)) k,
        lookup-replay history h k,
      )
