-- ===== src/Investigations/Closing.antt =====
-- A docket that was closed, and the calls that write to it.
use saps_case_dockets.Prelude.{
  ℕ, ◌≡◌, ap, ◌∙◌, subst, Bool, true, false, ◌&&◌, some, List, [], ◌∷◌, ◌==◌, first_where,
  exists_where, update_where, arith,
}
use saps_case_dockets.Text.{Text}
use saps_case_dockets.Rows.{first_where_sound}
use saps_case_dockets.Schema.{World, CaseDb, Docket, DocketStatus, Officer}
use saps_case_dockets.Tx.Rules.{Ensures, Ensures-weaken, is_error, is_error-Ensures}
use saps_case_dockets.Dockets.{station_docket}
use saps_case_dockets.Investigations.{
  is_writable, with_status, AssignmentRequest, NoteRequest, StatusRequest, assign, unassign,
  add_note, update_status,
}
use saps_case_dockets.Investigations.Scope.{InScope}
use saps_case_dockets.Investigations.Assignments.{assign-Assigned, unassign-Unassigned}
use saps_case_dockets.Investigations.Progress.{Progressed, update_status-Progressed, add_note-Noted}

abbrev closed_at : ℕ → Text → Docket → Docket
closed_at at reason d = with_status DocketStatus.closed at reason d

-- no row of that id is writable once all were closed
found_closed :
    (id key at : ℕ) (reason : Text) (q : Docket → Bool) (rows : List Docket) {d : Docket}
    → key ≡ id
    → first_where
        (λ x. x.id == id && q x)
        (update_where (λ x. x.id == key) (closed_at at reason) rows)
      ≡ some d
    → is_writable d.status ≡ false
unfolding first_where update_where
found_closed id key at reason q [] same h = cc
found_closed id key at reason q (x ∷ xs) {d} same h =
    ground (arith, found_closed id key at reason q xs {d = d})

station_docket-id :
    (id station_id : ℕ) (c : CaseDb) {d : Docket}
    → station_docket id station_id c ≡ some d
    → d.id ≡ id
unfolding station_docket
station_docket-id id station_id c {d} h = ground (
  arith,
  first_where_sound
      (λ x.
        x.id == id
        && exists_where (λ y. y.id == x.complaint_id && y.station_id == station_id) c.complaints)
      c.dockets {x = d},
)

-- the tables when that docket was closed
abbrev pub Closed : ℕ → CaseDb → Type 0
Closed id c =
    (at : ℕ) × (reason : Text) × (key : ℕ) × (rows : List Docket) × (key ≡ id)
    × (c.dockets ≡ update_where (λ x. x.id == key) (closed_at at reason) rows)

Closed-scope :
    (id user_id : ℕ) (commander : Bool) (w : World) {officer : Officer} {docket : Docket}
    → Closed id w.cases
    → InScope user_id id commander true w officer docket
    → false ≡ true
unfolding station_docket
Closed-scope id user_id commander w {officer} {docket} (at, reason, key, rows, same, is) scoped =
    let closed =
      found_closed id key at reason
        (λ x.
          exists_where (λ y. y.id == x.complaint_id && y.station_id == officer.station_id)
            w.complaints)
        rows {d = docket} same
        (subst
          (λ (ds : List Docket).
            first_where
              (λ x.
                x.id == id
                && exists_where (λ y. y.id == x.complaint_id && y.station_id == officer.station_id)
                    w.complaints)
              ds
            ≡ some docket)
          is scoped.in_station) in
    let open_case = scoped.writable_status in cc

Progressed-Closed :
    (user_id docket_id : ℕ) (request : StatusRequest) (w : World) {out : Docket} {w' : World}
    → request.status ≡ DocketStatus.closed
    → Progressed user_id docket_id request w out w'
    → Closed docket_id w'.cases
Progressed-Closed user_id docket_id request w closes done = (
  done.moved.closing,
  request.reason,
  done.docket.id,
  w.dockets,
  station_docket-id docket_id done.officer.station_id w.cases done.scoped.in_station,
  ap (λ (c : CaseDb). c.dockets) done.moved.written
      ∙ ap
          (λ s.
            update_where (λ x. x.id == done.docket.id)
              (with_status s done.moved.closing request.reason) w.dockets)
          closes,
)

-- After a change of status to CLOSED has returned, no assignment, end of an assignment, note or
-- change of status of that docket returns, whoever asks for it and for whatever.
pub closed-final :
    (user_id docket_id : ℕ) (request : StatusRequest) (later : ℕ) (assignment : AssignmentRequest)
    (reason : Text) (note : NoteRequest) (status : StatusRequest) (w : World)
    → request.status ≡ DocketStatus.closed
    → Ensures (update_status user_id docket_id request w) (λ _ w'.
      (is_error (assign later docket_id assignment w').0 ≡ true)
      × (is_error (unassign later docket_id reason w').0 ≡ true)
      × (is_error (add_note later docket_id note w').0 ≡ true)
      × (is_error (update_status later docket_id status w').0 ≡ true))
closed-final user_id docket_id request later assignment reason note status w closes =
    Ensures-weaken _ _ (update_status-Progressed user_id docket_id request w) λ out w' done.
      let closed = Progressed-Closed user_id docket_id request w closes done in
      (
        is_error-Ensures _ (assign-Assigned later docket_id assignment w')
            λ _ _ x. Closed-scope docket_id later true w' closed x.scoped,
        is_error-Ensures _ (unassign-Unassigned later docket_id reason w')
            λ _ _ x. Closed-scope docket_id later true w' closed x.scoped,
        is_error-Ensures _ (add_note-Noted later docket_id note w')
            λ _ _ x. Closed-scope docket_id later false w' closed x.scoped,
        is_error-Ensures _ (update_status-Progressed later docket_id status w')
            λ _ _ x. Closed-scope docket_id later false w' closed x.scoped,
      )
