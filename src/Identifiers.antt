-- ===== src/Identifiers.antt =====
-- Counter allocation of the human-readable identifiers: app/modules/system/service.py.
pub mod Quiet
pub mod Format
pub mod Counters
use saps_case_dockets.Prelude.{
  ℕ, zero, suc, ◌+◌, ◌-◌, ◌/◌, ◌%◌, Bool, false, ◌&&◌, ◌||◌, not, none, some, List, [], ◌∷◌, ◌++◌,
  ◌==◌, ltb, leb, if◌then◌else◌, first_where, update_where, length,
}
use saps_case_dockets.Text.{Text, codes}
use saps_case_dockets.Schema.{
  Station, IdentifierCounter, CounterType, same_counter, complaint_counter, cas_counter,
  evidence_counter, document_counter,
}
use saps_case_dockets.Tx.{Tx, http, pure, gets, raise_if, modify, ◌>>=◌, ◌>>◌}

-- `[A-Za-z0-9]`
unfoldable pub is_alnum : ℕ → Bool
is_alnum c = (leb b'A' c && leb c b'Z') || (leb b'a' c && leb c b'z') || (leb b'0' c && leb c b'9')

-- The rest of a match of `[A-Za-z0-9]+(?:-[A-Za-z0-9]+)*`; the flag says that a run of characters
-- is under way, so that a dash or the end may follow.
unfoldable pub code_rest : Bool → Text → Bool
unfolding is_alnum
code_rest started [] = started
code_rest started (c ∷ s) =
    let next = code_rest (not (c == b'-')) s in
    if is_alnum c then next else if started && (c == b'-') then next else false

-- `re.fullmatch(r'[A-Za-z0-9]+(?:-[A-Za-z0-9]+)*', code)`
unfoldable pub is_station_code : Text → Bool
unfolding code_rest
is_station_code s = code_rest false s

-- The decimal digits of a number in front of a text, the fuel above the number of digits.
unfoldable pub digits : ℕ → ℕ → Text → Text
digits zero n acc = acc
digits (suc f) n acc =
    let more = digits f (n / 10) ((b'0' + n % 10) ∷ acc) in
    if ltb n 10 then (b'0' + n) ∷ acc else more

-- `str(n)`
unfoldable pub decimal : ℕ → Text
unfolding digits
decimal n = digits (suc n) n []

unfoldable pub zeros : ℕ → Text → Text
zeros zero s = s
zeros (suc k) s = b'0' ∷ zeros k s

-- `f'{n:06d}'`
unfoldable pub padded : ℕ → Text
unfolding zeros
padded n = let s = decimal n in zeros (6 - length s) s

-- `f'{prefix}-{station.station_code}-{year}-{number:06d}'`
unfoldable pub format_identifier : Text → Text → ℕ → ℕ → Text
format_identifier prefix station_code year number =
    prefix ++ b'-' ∷ (station_code ++ b'-' ∷ (decimal year ++ b'-' ∷ padded number))

-- The primary key of a counter.
unfoldable pub is_counter : CounterType → ℕ → ℕ → IdentifierCounter → Bool
is_counter counter_type station_id year row =
    same_counter row.counter_type counter_type
    && (row.station_id == station_id)
    && (row.calendar_year == year)

abbrev pub advance : IdentifierCounter → IdentifierCounter
advance row = record row { last_value = row.last_value + 1 }

-- `INSERT ... VALUES (..., 1) ON CONFLICT DO UPDATE SET last_value = last_value + 1 RETURNING last_value`
unfoldable pub bump : CounterType → ℕ → ℕ → List IdentifierCounter → ℕ × List IdentifierCounter
unfolding is_counter
bump counter_type station_id year counters =
    elim (first_where (is_counter counter_type station_id year) counters) [
      | none ↦ (
        1,
        counters
            ++ record {
              counter_type = counter_type;
              station_id = station_id;
              calendar_year = year;
              last_value = 1;
            }
              ∷ [],
      )
      | some row ↦ (
        row.last_value + 1,
        update_where (is_counter counter_type station_id year) advance counters,
      )
    ]

abbrev counter_name : CounterType → Text
counter_name complaint_counter = codes "Station code is not configured for complaint identifiers"
counter_name cas_counter = codes "Station code is not configured for cas identifiers"
counter_name evidence_counter = codes "Station code is not configured for evidence identifiers"
counter_name document_counter = codes "Station code is not configured for document identifiers"

-- `_allocate_identifier`
unfoldable pub allocate_identifier : Station → ℕ → CounterType → Text → Tx Text
unfolding bump is_station_code
allocate_identifier station now counter_type prefix = do
  raise_if (not (is_station_code station.station_code)) (http 409 (counter_name counter_type))
  year ← gets (λ w. w.platform.calendar_year now)
  number ← gets (λ w. (bump counter_type station.id year w.counters).0)
  modify (λ w. record w.db { counters = (bump counter_type station.id year w.counters).1 })
  pure (format_identifier prefix station.station_code year number)

unfoldable pub allocate_complaint_reference : Station → ℕ → Tx Text
allocate_complaint_reference station now =
    allocate_identifier station now complaint_counter (codes "CMP")

unfoldable pub allocate_cas_number : Station → ℕ → Tx Text
allocate_cas_number station now = allocate_identifier station now cas_counter (codes "CAS")

unfoldable pub allocate_evidence_reference : Station → ℕ → Tx Text
allocate_evidence_reference station now =
    allocate_identifier station now evidence_counter (codes "EVD")

unfoldable pub allocate_document_number : Station → ℕ → Tx Text
allocate_document_number station now =
    allocate_identifier station now document_counter (codes "DOC")
