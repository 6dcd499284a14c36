-- ===== src/Business/Slots/Compute/Table.antt =====
-- slots.go, computeSlots: the table from a start to the specialists that are free then.
use booknow_mcp_service.Base.{
  ℤ, List, [], ◌∷◌, ◌++◌, map, true, Bool-cases, eq_ℤ, leb_ℤ, if◌then◌else◌, ◌≡◌, ◌⊎◌, inl, inr,
  ◌↔◌, Any, Any-append, arith, eq_of_parts, All, ◌<ℤ◌, insert_sorted, sort, sort-Any,
}
use booknow_mcp_service.Business.Types.{Ref}
use booknow_mcp_service.Business.Slots.Compute.{SlotMap, slot_refs, update_slot, update_slots}

pub eq_ℤ_iff : (a b : ℤ) → (eq_ℤ a b ≡ true) ↔ (a ≡ b)
eq_ℤ_iff a b = (λ h. eq_of_parts a b (ground arith), λ e. rw e (ground arith))

abbrev pub keys : SlotMap → List ℤ
keys m = map (λ e. e.0) m

abbrev pub Has : ℤ → List ℤ → Type 0
Has t ts = Any (λ y. y ≡ t) ts

slot_refs-update :
    (f : List Ref → List Ref) (s t : ℤ) (m : SlotMap)
    → slot_refs t (update_slot f s m) ≡ (if eq_ℤ s t then f (slot_refs t m) else slot_refs t m)
unfolding slot_refs update_slot
slot_refs-update f s t [] = ground arith
slot_refs-update f s t ((k, refs) ∷ m) =
    ground (arith, slot_refs-update f s t m, eq_ℤ_iff k s, eq_ℤ_iff k t, eq_ℤ_iff s t)

Has-keys-update :
    (f : List Ref → List Ref) (s t : ℤ) (m : SlotMap)
    → Has t (keys (update_slot f s m)) ↔ (Has t (keys m) ⊎ (s ≡ t))
unfolding update_slot
Has-keys-update f s t [] = ground arith
Has-keys-update f s t ((k, refs) ∷ m) = ground (arith, Has-keys-update f s t m, eq_ℤ_iff k s)

-- Adding starts adds exactly these keys.
pub Has-keys-update_slots :
    (f : List Ref → List Ref) (ss : List ℤ) (t : ℤ) (m : SlotMap)
    → Has t (keys (update_slots f ss m)) ↔ (Has t (keys m) ⊎ Has t ss)
unfolding update_slots
Has-keys-update_slots f [] t m = ground arith
Has-keys-update_slots f (s ∷ ss) t m =
    ground (arith, Has-keys-update_slots f ss t (update_slot f s m), Has-keys-update f s t m)

module _ (q r : Ref) where
  abbrev Names : List Ref → Type 0
  Names refs = Any (λ y. y ≡ q) refs

  abbrev appended : List Ref → List Ref
  appended refs = refs ++ r ∷ []

  Names-update_appended :
      (s t : ℤ) (m : SlotMap)
      → Names (slot_refs t (update_slot appended s m))
        ↔ (Names (slot_refs t m) ⊎ ((s ≡ t) × (r ≡ q)))
  Names-update_appended s t m =
      rw (slot_refs-update appended s t m)
        (ground (arith, eq_ℤ_iff s t, Any-append (λ y. y ≡ q) (slot_refs t m) (r ∷ [])))

  -- Adding a specialist at some starts adds the name exactly there.
  pub Names-update_slots :
      (ss : List ℤ) (t : ℤ) (m : SlotMap)
      → Any (λ y. y ≡ q) (slot_refs t (update_slots (λ refs. refs ++ r ∷ []) ss m))
        ↔ (Any (λ y. y ≡ q) (slot_refs t m) ⊎ (Has t ss × (r ≡ q)))
  unfolding update_slots
  Names-update_slots [] t m = ground arith
  Names-update_slots (s ∷ ss) t m =
      ground
        (arith, Names-update_slots ss t (update_slot appended s m), Names-update_appended s t m)

pub Has-keys_of_refs :
    (P : Ref → Type 0) (t : ℤ) (m : SlotMap) → Any P (slot_refs t m) → Has t (keys m)
unfolding slot_refs
Has-keys_of_refs P t [] h = h
Has-keys_of_refs P t ((k, refs) ∷ m) h = ground (arith, eq_ℤ_iff k t, Has-keys_of_refs P t m)

-- No key twice.
abbrev pub Distinct : List ℤ → Type 0
Distinct [] = Unit
Distinct (t ∷ ts) = ¬ (Has t ts) × Distinct ts

Distinct-update :
    (f : List Ref → List Ref) (s : ℤ) (m : SlotMap)
    → Distinct (keys m)
    → Distinct (keys (update_slot f s m))
unfolding update_slot
Distinct-update f s [] d = (λ h. h, tt)
Distinct-update f s ((k, refs) ∷ m) (fresh, d) =
    ground (arith, Distinct-update f s m d, Has-keys-update f s k m, eq_ℤ_iff k s)

pub Distinct-update_slots :
    (f : List Ref → List Ref) (ss : List ℤ) (m : SlotMap)
    → Distinct (keys m)
    → Distinct (keys (update_slots f ss m))
unfolding update_slots
Distinct-update_slots f [] m d = d
Distinct-update_slots f (s ∷ ss) m d =
    Distinct-update_slots f ss (update_slot f s m) (Distinct-update f s m d)

abbrev pub Ascending : List ℤ → Type 0
Ascending [] = Unit
Ascending (t ∷ ts) = All (λ u. t <ℤ u) ts × Ascending ts

All-insert :
    (P : ℤ → Type 0) (t : ℤ) (ts : List ℤ) → P t → All P ts → All P (insert_sorted leb_ℤ t ts)
unfolding insert_sorted
All-insert P t [] p h = (p, tt)
All-insert P t (u ∷ ts) p h = ground (arith, All-insert P t ts p h.1)

All-lt_trans : (t u : ℤ) (ts : List ℤ) → t <ℤ u → All (λ v. u <ℤ v) ts → All (λ v. t <ℤ v) ts
All-lt_trans t u [] l h = tt
All-lt_trans t u (v ∷ ts) l h = (omega arith, All-lt_trans t u ts l h.1)

insert-Ascending :
    (t : ℤ) (ts : List ℤ) → ¬ (Has t ts) → Ascending ts → Ascending (insert_sorted leb_ℤ t ts)
unfolding insert_sorted
insert-Ascending t [] n a = (tt, tt)
insert-Ascending t (u ∷ ts) n (below, a) = elim (Bool-cases (leb_ℤ t u)) [
  | inl le ↦
      let lt : t <ℤ u = ground (arith, eq_of_parts u t) in
      rw le ((lt, All-lt_trans t u ts lt below), (below, a))
  | inr gt ↦
      rw gt (
        All-insert (λ v. u <ℤ v) t ts (ground arith) below,
        insert-Ascending t ts (λ h. n (inr h)) a,
      )
]

pub sort-Ascending : (ts : List ℤ) → Distinct ts → Ascending (sort leb_ℤ ts)
unfolding sort
sort-Ascending [] d = tt
sort-Ascending (t ∷ ts) (fresh, d) =
    insert-Ascending t (sort leb_ℤ ts) (λ h. fresh ((sort-Any leb_ℤ (λ y. y ≡ t) ts).0 h))
      (sort-Ascending ts d)
