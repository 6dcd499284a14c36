-- ===== src/Business/Dates/Laws.antt =====
-- dates.go: what parse_range accepts.
use booknow_mcp_service.Base.{
  ◌≤ℤ◌, ◌+ℤ◌, pos, true, false, trim_space, refl, String, Option, none, some, Bool, ◌≡◌, arith, ok,
  >>=-eq-ok,
}
use booknow_mcp_service.Business.Types.{Location, Time}
use booknow_mcp_service.Business.Dates.{
  Calendar, or_invalid, instant_of, exclusive_end, range_limit, bounded, parse_instant, parse_range,
}

some_eq {ℓ} : {A : Type ℓ} {a b : A} → some a ≡ some b → a ≡ b
some_eq h = cc

none_eq {ℓ} : {A : Type ℓ} {a : A} → none ≡ some a → ⊥
none_eq h = cc

module _ (cal : Calendar) where
  -- A text that is a date stands for its first instant in the location; else it is a datetime of RFC
  -- 3339.
  abbrev pub IsParsed : String → Location → Time → Bool → Type 0
  IsParsed s loc t true = cal.parse_date (trim_space s) loc ≡ some t
  IsParsed s loc t false =
      (cal.parse_date (trim_space s) loc ≡ none) × (cal.parse_rfc3339 (trim_space s) ≡ some t)

  -- The end of a range, exclusive: the next local day after a date, a microsecond after a datetime.
  abbrev pub IsEnd : Time → Bool → Time → Type 0
  IsEnd last true to = to ≡ cal.add_days last (pos 1)
  IsEnd last false to = to.at ≡ last.at +ℤ pos 1000

  -- No more than 31 local days, and a microsecond from a datetime on.
  abbrev pub IsShort : Time → Bool → Time → Type 0
  IsShort first true to = to.at ≤ℤ (cal.add_days first (pos 31)).at
  IsShort first false to = to.at ≤ℤ ((cal.add_days first (pos 31)).at +ℤ pos 1000)

  -- What an accepted range satisfies, whichever of the two formats its ends have.
  pub record IsRange (start end : String) (loc : Location) (from to : Time) : Type 0 where
    pub from_date : Bool
    pub first_parsed : IsParsed start loc from from_date
    pub last : Time
    pub to_date : Bool
    pub last_parsed : IsParsed end loc last to_date
    pub ordered : from.at ≤ℤ last.at
    pub to_is : IsEnd last to_date to
    pub within : IsShort from from_date to

  instant_of-IsParsed :
      (s : String) (loc : Location) (date datetime : Option Time) (r : Time × Bool)
      → cal.parse_date (trim_space s) loc ≡ date
      → cal.parse_rfc3339 (trim_space s) ≡ datetime
      → instant_of cal date datetime ≡ some r
      → IsParsed s loc (r.0) (r.1)
  instant_of-IsParsed s loc (some t) datetime r is also h = rw (← some_eq h) (is)
  instant_of-IsParsed s loc none (some t) r is also h = rw (← some_eq h) (is, also)
  instant_of-IsParsed s loc none none r is also h = absurd (none_eq h)

  parse_instant-IsParsed :
      (s : String) (loc : Location) (r : Time × Bool)
      → parse_instant cal s loc ≡ some r
      → IsParsed s loc (r.0) (r.1)
  unfolding parse_instant
  parse_instant-IsParsed s loc r h = instant_of-IsParsed s loc _ _ r refl refl h

  exclusive_end-IsEnd :
      (last : Time) (is_date : Bool) → IsEnd last is_date (exclusive_end cal last is_date)
  exclusive_end-IsEnd last true = refl
  exclusive_end-IsEnd last false = refl

  range_limit-IsShort :
      (first : Time) (is_date : Bool) (to : Time)
      → to.at ≤ℤ (range_limit cal first is_date).at
      → IsShort first is_date to
  range_limit-IsShort first true to h = h
  range_limit-IsShort first false to h = h

  or_invalid-eq-ok :
      (message : String) (o : Option (Time × Bool)) {r : Time × Bool}
      → or_invalid cal message o ≡ ok r
      → o ≡ some r
  or_invalid-eq-ok message none h = cc
  or_invalid-eq-ok message (some r) h = ground arith

  bounded-eq-ok :
      (f l : Time × Bool) (from to : Time)
      → bounded cal f l ≡ ok (from, to)
      → (from ≡ f.0)
        × (f.0.at ≤ℤ l.0.at)
        × (to ≡ exclusive_end cal l.0 l.1)
        × (to.at ≤ℤ (range_limit cal f.0 f.1).at)
  bounded-eq-ok (f, fd) (l, ld) from to h = ground arith

  -- An accepted range starts at the parsed start, which is not after the parsed end; it ends
  -- with the next local day after an end date, or a microsecond after an end datetime, and is
  -- no longer than 31 days.
  pub parse_range-IsRange :
      (start end : String) (loc : Location) (from to : Time)
      → parse_range cal start end loc ≡ ok (from, to)
      → IsRange start end loc from to
  unfolding parse_range
  parse_range-IsRange start end loc from to e =
      let (f, parsed, e1) = >>=-eq-ok (or_invalid cal _ (parse_instant cal start loc)) _ e in
      let (l, parsed', e2) = >>=-eq-ok (or_invalid cal _ (parse_instant cal end loc)) _ e1 in
      let (a, b, c, d) = bounded-eq-ok f l from to e2 in
      rw (a, c)
        (record {
          from_date = f.1;
          first_parsed = parse_instant-IsParsed start loc f (or_invalid-eq-ok _ _ parsed);
          last = l.0;
          to_date = l.1;
          last_parsed = parse_instant-IsParsed end loc l (or_invalid-eq-ok _ _ parsed');
          ordered = b;
          to_is = exclusive_end-IsEnd l.0 l.1;
          within = range_limit-IsShort f.0 f.1 _ (rw c at d);
        })
