-- ===== src/Httpapi/Usage/Once.antt =====
-- internal/httpapi/mcp_usage.go: no connection is recorded twice in a minute.
use booknow_mcp_service.Base.{
  ℤ, pos, String, List, [], ◌∷◌, Bool, true, false, if◌then◌else◌, str_eq, eq_iff, eq_refl, All,
  sub_instants, ◌≤ℤ◌, ◌-ℤ◌, ◌≡◌, ◌≢◌, refl, ◌⊎◌, inl, inr, arith, Bool-cases, int64_half, leb_ℤ,
  ltb_ℤ, negsuc, ◌-◌, minute, -ℤ_parts, sym, ap, ◌∙◌,
}
use booknow_mcp_service.Httpapi.Usage.{
  Last, lookup, is_recent, seen_recently, drop_stale, set_key, due,
}
use booknow_mcp_service.Httpapi.Usage.Coverage.{Use, recorded_of}

-- No call comes before the one that it follows, nor before a time.
abbrev pub IsOrdered : ℤ → List Use → Type 0
IsOrdered from [] = Unit
IsOrdered from (u ∷ calls) = (from ≤ℤ u.0) × IsOrdered (u.0) calls

-- Two recorded uses of one connection are a minute apart at least; the last use stands first.
abbrev pub IsApart : List Use → Type 0
IsApart [] = Unit
IsApart (u ∷ older) =
    All (λ v. (v.1 ≢ u.1) ⊎ (pos 60000000000 ≤ℤ (u.0 -ℤ v.0))) older × IsApart older

-- From a time on, a use that is recent is remembered.
abbrev Remembers : ℤ → Last → Use → Type 0
Remembers from last u =
    (now : ℤ)
    → from ≤ℤ now
    → is_recent now (u.0) ≡ true
    → seen_recently now (lookup (u.1) last) ≡ true

-- The saturation of Time.Sub is far from a minute.
saturated :
    (d : ℤ)
    → ltb_ℤ
        (if leb_ℤ (pos int64_half) d
          then pos (int64_half - 1)
          else if ltb_ℤ d (negsuc (int64_half - 1))
          then negsuc (int64_half - 1)
          else d)
        minute
      ≡ ltb_ℤ d minute
saturated d = ground arith

is_recent_lem : (now seen : ℤ) → is_recent now seen ≡ ltb_ℤ (now -ℤ seen) minute
unfolding sub_instants
is_recent_lem now seen = saturated (now -ℤ seen)

less_before : (d e : ℤ) → d ≤ℤ e → ltb_ℤ e minute ≡ true → ltb_ℤ d minute ≡ true
less_before d e h r = ground arith

minus_monotone : (a b c : ℤ) → a ≤ℤ b → (a -ℤ c) ≤ℤ (b -ℤ c)
minus_monotone a b c h = omega (arith, -ℤ_parts a c, -ℤ_parts b c)

recent_before :
    (now later seen : ℤ) → now ≤ℤ later → is_recent later seen ≡ true → is_recent now seen ≡ true
recent_before now later seen h r =
    is_recent_lem now seen
    ∙ less_before (now -ℤ seen) (later -ℤ seen) (minus_monotone now later seen h)
        (sym (is_recent_lem later seen) ∙ r)

at_least : (d : ℤ) → ltb_ℤ d minute ≡ false → pos 60000000000 ≤ℤ d
at_least d h = ground arith

minute_apart : (now seen : ℤ) → is_recent now seen ≡ false → pos 60000000000 ≤ℤ (now -ℤ seen)
minute_apart now seen h = at_least (now -ℤ seen) (sym (is_recent_lem now seen) ∙ h)

le_trans : (a b c : ℤ) → a ≤ℤ b → b ≤ℤ c → a ≤ℤ c
le_trans a b c h k = ground arith

lookup-drop_stale :
    (now later : ℤ) (key : String) (m : Last)
    → now ≤ℤ later
    → seen_recently later (lookup key m) ≡ true
    → seen_recently later (lookup key (drop_stale now m)) ≡ true
unfolding lookup
lookup-drop_stale now later key [] h r = r
lookup-drop_stale now later key ((k, v) ∷ m) h r = elim (Bool-cases (str_eq k key)) [
  | inl same ↦
      let soon : is_recent later v ≡ true = rw same at r in
      rw (recent_before now later v h soon, same) soon
  | inr other ↦
      let rest = lookup-drop_stale now later key m h (rw other at r) in
      elim (Bool-cases (is_recent now v)) [
        | inl kept ↦ rw (kept, other) rest
        | inr gone ↦ rw gone rest
      ]
]

lookup-set_key :
    (id key : String) (now : ℤ) (m : Last)
    → str_eq id key ≡ false
    → lookup key (set_key id now m) ≡ lookup key m
unfolding lookup
lookup-set_key id key now [] other = rw other refl
lookup-set_key id key now ((k, v) ∷ m) other =
    ground (arith, lookup-set_key id key now m other, eq_iff k id, eq_iff k key, eq_iff id key)

remembers_later :
    (from now : ℤ) (last : Last) (recorded : List Use)
    → from ≤ℤ now
    → All (Remembers from last) recorded
    → All (Remembers now last) recorded
remembers_later from now last [] h r = tt
remembers_later from now last (u ∷ older) h r = (
  λ later k soon. (r.0) later (le_trans from now later h k) soon,
  remembers_later from now last older h (r.1),
)

not_both : {b : Bool} → b ≡ true → b ≡ false → ⊥
not_both h k = cc

-- A use that is due leaves what was recorded a minute before it.
module _ (now : ℤ) (id : String) (last : Last)
    (is_due : seen_recently now (lookup id last) ≡ false) where
  unseen : (key : String) → key ≡ id → seen_recently now (lookup key last) ≡ true → ⊥
  unseen key same seen = not_both seen (ap (λ k. seen_recently now (lookup k last)) same ∙ is_due)

  far :
      (from : ℤ) (u : Use)
      → from ≤ℤ now
      → Remembers from last u
      → (u.1 ≢ id) ⊎ (pos 60000000000 ≤ℤ (now -ℤ u.0))
  far from (t, key) h r = elim (Bool-cases (str_eq key id)) [
    | inl same ↦ elim (Bool-cases (is_recent now t)) [
      | inl soon ↦ absurd (unseen key ((eq_iff key id).0 same) (r now h soon))
      | inr apart ↦ inr (minute_apart now t apart)
    ]
    | inr other ↦ inl (λ e. not_both ((eq_iff key id).1 e) other)
  ]

  far_all :
      (from : ℤ) (recorded : List Use)
      → from ≤ℤ now
      → All (Remembers from last) recorded
      → All (λ v. (v.1 ≢ id) ⊎ (pos 60000000000 ≤ℤ (now -ℤ v.0))) recorded
  far_all from [] h r = tt
  far_all from (u ∷ older) h r = (far from u h (r.0), far_all from older h (r.1))

  kept :
      (from : ℤ) (u : Use)
      → from ≤ℤ now
      → Remembers from last u
      → Remembers now (set_key id now (drop_stale now last)) u
  kept from (t, key) h r later k soon = elim (Bool-cases (str_eq id key)) [
    | inl same ↦
        absurd
          (unseen key (sym ((eq_iff id key).0 same)) (r now h (recent_before now later t k soon)))
    | inr other ↦
        ap (seen_recently later) (lookup-set_key id key now (drop_stale now last) other)
        ∙ lookup-drop_stale now later key last k (r later (le_trans from now later h k) soon)
  ]

  kept_all :
      (from : ℤ) (recorded : List Use)
      → from ≤ℤ now
      → All (Remembers from last) recorded
      → All (Remembers now (set_key id now (drop_stale now last))) recorded
  kept_all from [] h r = tt
  kept_all from (u ∷ older) h r = (kept from u h (r.0), kept_all from older h (r.1))

  own : Remembers now (set_key id now (drop_stale now last)) (now, id)
  unfolding lookup
  own later k soon = rw (eq_refl id) soon

recorded_of-IsApart :
    (calls : List Use) (from : ℤ) (last : Last) (recorded : List Use)
    → IsOrdered from calls
    → All (Remembers from last) recorded
    → IsApart recorded
    → IsApart (recorded_of calls last recorded)
unfolding recorded_of due
recorded_of-IsApart [] from last recorded o r a = a
recorded_of-IsApart ((now, id) ∷ calls) from last recorded o r a =
    elim (Bool-cases (seen_recently now (lookup id last))) [
      | inl recent ↦ rw recent (
          recorded_of-IsApart calls now last recorded (o.1)
            (remembers_later from now last recorded (o.0) r) a)
      | inr stale ↦ rw stale (
          recorded_of-IsApart calls now (set_key id now (drop_stale now last))
            ((now, id) ∷ recorded) (o.1)
            (own now id last stale, kept_all now id last stale from recorded (o.0) r)
            (far_all now id last stale from recorded (o.0) r, a))
    ]

-- At most one use of a connection is recorded in a minute: of any calls, of whatever connections, that
-- come in the order of their times, from a throttle that remembers nothing, the recorded uses of one
-- connection are a minute apart at least.
pub due-IsApart :
    (from : ℤ) (calls : List Use) → IsOrdered from calls → IsApart (recorded_of calls [] [])
due-IsApart from calls o = recorded_of-IsApart calls from [] [] o tt tt
