-- ===== src/Identifiers/Counters.antt =====
-- The counters of the identifiers (app/modules/system/service.py).
use saps_case_dockets.Prelude.{
  true_of, ℕ, ◌+◌, ◌≤◌, ◌≡◌, ◌≢◌, refl, ap, sym, ◌∙◌, true, Option, none, some, List, [], ◌∷◌, ◌++◌,
  first_where, update_where, arith,
}
use saps_case_dockets.Text.{Text}
use saps_case_dockets.Schema.{World, Station, IdentifierCounter, CounterType, same_counter}
use saps_case_dockets.Tx.Rules.{
  Ensures, Ensures-raise_if, Ensures-gets, Ensures-modify, Ensures-pure, Ensures-weaken,
}
use saps_case_dockets.Identifiers.{
  is_counter, advance, bump, allocate_identifier, format_identifier, is_station_code,
}
use saps_case_dockets.Identifiers.Format.{format_identifier-injective}

abbrev last_of : Option IdentifierCounter → ℕ
last_of none = 0
last_of (some row) = row.last_value

-- the last number given out by a counter, 0 before the first
abbrev pub value : CounterType → ℕ → ℕ → List IdentifierCounter → ℕ
value t station_id year rows = last_of (first_where (is_counter t station_id year) rows)

bump-number :
    (t : CounterType) (station_id year : ℕ) (rows : List IdentifierCounter)
    → (bump t station_id year rows).0 ≡ value t station_id year rows + 1
unfolding bump
bump-number t station_id year rows = ground arith

same_counter_refl : (t : CounterType) → same_counter t t ≡ true
same_counter_refl t = ground arith

value-update :
    (t : CounterType) (station_id year : ℕ) (rows : List IdentifierCounter)
    {row : IdentifierCounter}
    → first_where (is_counter t station_id year) rows ≡ some row
    → first_where
        (is_counter t station_id year)
        (update_where (is_counter t station_id year) advance rows)
      ≡ some (advance row)
unfolding first_where update_where is_counter
value-update t station_id year [] h = cc
value-update t station_id year (x ∷ xs) {row} h =
    ground (arith, value-update t station_id year xs {row = row})

value-append :
    (t : CounterType) (station_id year n : ℕ) (rows : List IdentifierCounter)
    → first_where (is_counter t station_id year) rows ≡ none
    → first_where (is_counter t station_id year) (
        rows
        ++ record {
          counter_type = t;
          station_id = station_id;
          calendar_year = year;
          last_value = n;
        }
          ∷ [])
      ≡ some (record {
        counter_type = t;
        station_id = station_id;
        calendar_year = year;
        last_value = n;
      })
unfolding first_where is_counter
value-append t station_id year n [] h = ground (arith, same_counter_refl t)
value-append t station_id year n (x ∷ xs) h = ground (arith, value-append t station_id year n xs)

value-bump_of :
    (t : CounterType) (station_id year : ℕ) (rows : List IdentifierCounter)
    (found : Option IdentifierCounter)
    → first_where (is_counter t station_id year) rows ≡ found
    → value t station_id year (bump t station_id year rows).1 ≡ (bump t station_id year rows).0
unfolding bump
value-bump_of t station_id year rows none h =
    rw (bump, h) (ap last_of (value-append t station_id year 1 rows h))
value-bump_of t station_id year rows (some row) h =
    rw (bump, h) (ap last_of (value-update t station_id year rows h))

value-bump :
    (t : CounterType) (station_id year : ℕ) (rows : List IdentifierCounter)
    → value t station_id year (bump t station_id year rows).1 ≡ value t station_id year rows + 1
value-bump t station_id year rows =
    value-bump_of t station_id year rows _ refl ∙ bump-number t station_id year rows

-- What an answered allocation says: the text carries the next number of its counter, which has
-- moved to that number.
pub record Allocated (station : Station) (now : ℕ) (t : CounterType) (prefix : Text) (w : World)
    (text : Text) (w' : World) : Type 0 where
  pub number : ℕ
  pub code_fits : is_station_code station.station_code ≡ true
  pub is_next : number ≡ value t station.id (w.platform.calendar_year now) w.counters + 1
  pub answered :
      text ≡ format_identifier prefix station.station_code (w.platform.calendar_year now) number
  pub moved : value t station.id (w.platform.calendar_year now) w'.counters ≡ number

-- An allocation that returns was for a station with a well-formed code; the identifier carries the
-- next number of the counter of its type, station and year, and the counter has moved to it.
pub allocate_identifier-Allocated :
    (station : Station) (now : ℕ) (t : CounterType) (prefix : Text) (w : World)
    → Ensures (allocate_identifier station now t prefix w) (Allocated station now t prefix w)
unfolding allocate_identifier
allocate_identifier-Allocated station now t prefix w = Ensures-raise_if _ _ _ _ λ fits.
    Ensures-gets _ _ _ (
      Ensures-gets _ _ _ (
        Ensures-modify _ _ _ (
          Ensures-pure _ _ (record {
            number = _;
            code_fits = true_of _ fits;
            is_next = bump-number t station.id (w.platform.calendar_year now) w.counters;
            answered = refl;
            moved = value-bump_of t station.id (w.platform.calendar_year now) w.counters _ refl;
          }))))

-- An identifier that was allocated is not allocated again for the same counter: as long as the
-- counter has not gone back and the year is the same, a later allocation that returns gives
-- another text.
pub allocate_identifier-distinct :
    (station : Station) (now later : ℕ) (t : CounterType) (prefix : Text) (w w2 : World)
    (text : Text) (w1 : World)
    → Allocated station now t prefix w text w1
    → w2.platform.calendar_year later ≡ w.platform.calendar_year now
    → value t station.id (w.platform.calendar_year now) w1.counters
      ≤ value t station.id (w.platform.calendar_year now) w2.counters
    → Ensures (allocate_identifier station later t prefix w2) (λ other w3. text ≢ other)
allocate_identifier-distinct station now later t prefix w w2 text w1 first same_year le =
    Ensures-weaken _ _ (allocate_identifier-Allocated station later t prefix w2)
      λ other w3 second same.
        let equal : first.number ≡ second.number =
          format_identifier-injective prefix station.station_code (w.platform.calendar_year now) _ _
            (sym first.answered
              ∙ same
              ∙ second.answered
              ∙ ap (λ y. format_identifier prefix station.station_code y second.number)
                  same_year) in
        let next : second.number
            ≡ value t station.id (w.platform.calendar_year now) w2.counters + 1 =
          second.is_next ∙ ap (λ y. value t station.id y w2.counters + 1) same_year in
        let moved = first.moved in omega arith
