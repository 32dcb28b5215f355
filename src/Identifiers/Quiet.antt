-- ===== src/Identifiers/Quiet.antt =====
-- The allocation of identifiers, and the case tables.
use saps_case_dockets.Prelude.{ℕ, refl}
use saps_case_dockets.Text.{Text}
use saps_case_dockets.Schema.{Station, CounterType}
use saps_case_dockets.Tx.{modify}
use saps_case_dockets.Tx.Rules.{Keeps, keeps_rules, cases_of}
use saps_case_dockets.Identifiers.{
  bump, allocate_identifier, allocate_complaint_reference, allocate_cas_number,
  allocate_evidence_reference,
}

Keeps-counters :
    (t : CounterType) (id year : ℕ)
    → Keeps cases_of (modify (λ w. record w.db { counters = (bump t id year w.counters).1 }))
unfolding modify
Keeps-counters t id year = record { at = λ w. refl }

pub Keeps-allocate_identifier :
    (s : Station) (now : ℕ) (t : CounterType) (prefix : Text)
    → Keeps cases_of (allocate_identifier s now t prefix)
unfolding allocate_identifier
Keeps-allocate_identifier s now t prefix = search (keeps_rules, Keeps-counters) depth 12

pub Keeps-allocate_cas_number : (s : Station) (now : ℕ) → Keeps cases_of (allocate_cas_number s now)
unfolding allocate_cas_number
Keeps-allocate_cas_number s now = search Keeps-allocate_identifier

pub Keeps-allocate_complaint_reference :
    (s : Station) (now : ℕ) → Keeps cases_of (allocate_complaint_reference s now)
unfolding allocate_complaint_reference
Keeps-allocate_complaint_reference s now = search Keeps-allocate_identifier

pub Keeps-allocate_evidence_reference :
    (s : Station) (now : ℕ) → Keeps cases_of (allocate_evidence_reference s now)
unfolding allocate_evidence_reference
Keeps-allocate_evidence_reference s now = search Keeps-allocate_identifier
