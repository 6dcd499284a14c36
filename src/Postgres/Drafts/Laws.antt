-- ===== src/Postgres/Drafts/Laws.antt =====
-- drafts.go: the errors that the database raises, in whatever order Go ranges over the map.
use booknow_mcp_service.Base.{
  String, [], ◌∷◌, none, some, true, false, ◌||◌, Bool-cases, has_prefix, DraftFault, ◌≡◌, refl,
  sym, inl, inr, arith, Any, All, Any-imp, Option-cases, ◌↔◌, ap, ◌∙◌,
}
use booknow_mcp_service.Postgres.Drafts.{Prefixes, confirm_errors, fault_in}

-- Two prefixes of one text: one is a prefix of the other.
has_prefix_both :
    (s p q : String)
    → has_prefix s p ≡ true
    → has_prefix s q ≡ true
    → (has_prefix p q || has_prefix q p) ≡ true
unfolding has_prefix
has_prefix_both s String.[] String.[] h k = refl
has_prefix_both s String.[] (String.◌∷◌ d q) h k = refl
has_prefix_both s (String.◌∷◌ c p) String.[] h k = refl
has_prefix_both String.[] (String.◌∷◌ c p) (String.◌∷◌ d q) h k = cc
has_prefix_both (String.◌∷◌ e s) (String.◌∷◌ c p) (String.◌∷◌ d q) h k =
    ground (arith, has_prefix_both s p q)

abbrev pub Entry : Type 0
Entry = String × DraftFault

-- No prefix of the list is a prefix of another.
abbrev Exclusive : Prefixes → Type 0
Exclusive [] = Unit
Exclusive (e ∷ ps) =
    All (λ x. (has_prefix (e.0) (x.0) || has_prefix (x.0) (e.0)) ≡ false) ps × Exclusive ps

confirm_errors-Exclusive : Exclusive confirm_errors
unfolding has_prefix
confirm_errors-Exclusive = (
  (refl, (refl, (refl, (refl, tt)))),
  ((refl, (refl, (refl, tt))), ((refl, (refl, tt)), ((refl, tt), (tt, tt)))),
)

-- The entry is one of the list's, and its prefix starts the message.
abbrev Hits : String → DraftFault → Prefixes → Type 0
Hits message f ps = Any (λ x. (x.1 ≡ f) × (has_prefix message (x.0) ≡ true)) ps

fault_in-Hits :
    (ps : Prefixes) (message : String) (f : DraftFault)
    → fault_in ps message ≡ some f
    → Hits message f ps
unfolding fault_in
fault_in-Hits [] message f h = cc
fault_in-Hits ((p, g) ∷ ps) message f h = ground (arith, fault_in-Hits ps message f)

-- Where the head hits, no exclusive later entry does.
true_not_false : true ≡ false → ⊥
true_not_false h = cc

none_later :
    (message p : String) (f : DraftFault) (ps : Prefixes)
    → has_prefix message p ≡ true
    → All (λ x. (has_prefix p (x.0) || has_prefix (x.0) p) ≡ false) ps
    → Hits message f ps
    → ⊥
none_later message p f [] h e hit = hit
none_later message p f (x ∷ ps) h (e, rest) (inl (same, starts)) =
    true_not_false (sym (has_prefix_both message p (x.0) h starts) ∙ e)
none_later message p f (x ∷ ps) h (e, rest) (inr later) = none_later message p f ps h rest later

head_hit :
    (message p : String) (g f : DraftFault) (ps : Prefixes)
    → has_prefix message p ≡ true
    → All (λ x. (has_prefix p (x.0) || has_prefix (x.0) p) ≡ false) ps
    → Hits message f ((p, g) ∷ ps)
    → some g ≡ some f
head_hit message p g f ps starts e (inl (same, h)) = ap some same
head_hit message p g f ps starts e (inr later) = absurd (none_later message p f ps starts e later)

tail_hit :
    (message p : String) (g f : DraftFault) (ps : Prefixes)
    → has_prefix message p ≡ false
    → Hits message f ((p, g) ∷ ps)
    → Hits message f ps
tail_hit message p g f ps misses (inl (same, h)) = absurd (true_not_false (sym h ∙ misses))
tail_hit message p g f ps misses (inr later) = later

Hits-fault_in :
    (ps : Prefixes) (message : String) (f : DraftFault)
    → Exclusive ps
    → Hits message f ps
    → fault_in ps message ≡ some f
unfolding fault_in
Hits-fault_in [] message f e hit = absurd hit
Hits-fault_in ((p, g) ∷ ps) message f (e, rest) hit = elim (Bool-cases (has_prefix message p)) [
  | inl starts ↦ rw starts (head_hit message p g f ps starts e hit)
  | inr other ↦ rw other (Hits-fault_in ps message f rest (tail_hit message p g f ps other hit))
]

misses_all :
    (ps : Prefixes) (message : String) (f : DraftFault)
    → fault_in ps message ≡ none
    → Hits message f ps
    → ⊥
unfolding fault_in
misses_all [] message f h hit = hit
misses_all ((p, g) ∷ ps) message f h (inl (same, starts)) = ground (arith)
misses_all ((p, g) ∷ ps) message f h (inr later) = ground (arith, misses_all ps message f)

-- Two lists have the same entries.
abbrev pub SameEntries : Prefixes → Prefixes → Type 0
SameEntries ps qs = (e : Entry) → Any (λ x. x ≡ e) ps ↔ Any (λ x. x ≡ e) qs

Hits-moves :
    (ps qs : Prefixes) (message : String) (f : DraftFault)
    → ((e : Entry) → Any (λ x. x ≡ e) ps → Any (λ x. x ≡ e) qs)
    → Hits message f ps
    → Hits message f qs
Hits-moves [] qs message f inside hit = absurd hit
Hits-moves (e ∷ ps) qs message f inside (inl (same, starts)) =
    Any-imp (λ x. x ≡ e) (λ x. (x.1 ≡ f) × (has_prefix message (x.0) ≡ true)) qs
      (λ x eq. rw eq (same, starts)) (inside e (inl refl))
Hits-moves (e ∷ ps) qs message f inside (inr later) =
    Hits-moves ps qs message f (λ x i. inside x (inr i)) later

-- The fault that a raised message stands for does not depend on the order in which Go ranges over the
-- map of prefixes: any list with the same entries gives the same fault.
pub fault_in-order :
    (order : Prefixes) (message : String)
    → SameEntries order confirm_errors
    → fault_in order message ≡ fault_in confirm_errors message
fault_in-order order message same = elim (Option-cases (fault_in order message)) [
  | inl nothing ↦ elim (Option-cases (fault_in confirm_errors message)) [
    | inl still ↦ nothing ∙ sym still
    | inr (g, found) ↦ absurd (
        misses_all order message g nothing (
          Hits-moves confirm_errors order message g (λ e. (same e).1)
            (fault_in-Hits confirm_errors message g found)))
  ]
  | inr (f, found) ↦
      found
      ∙ sym (
          Hits-fault_in confirm_errors message f confirm_errors-Exclusive (
            Hits-moves order confirm_errors message f (λ e. (same e).0)
              (fault_in-Hits order message f found)))
]
