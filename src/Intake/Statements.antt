-- ===== src/Intake/Statements.antt =====
-- The versions of a complaint's statement (app/modules/complaints/intake.py, `append_statement`).
use saps_case_dockets.Prelude.{
  ℕ, ◌+◌, ◌≡◌, refl, ◌∙◌, ap, sym, Bool, true, false, ◌&&◌, ◌||◌, Option, none, some, List, [], ◌∷◌,
  ◌++◌, ◌==◌, leb, ltb, equal_of, first_where, exists_where, update_where, top_where, if◌then◌else◌,
  arith,
}
use saps_case_dockets.Text.{codes}
use saps_case_dockets.Schema.{World, Complaint, ComplaintStatement}
use saps_case_dockets.Tx.{Tx, http, raise, ◌>>=◌}
use saps_case_dockets.Tx.Rules.{
  Ensures, cases_of, Ensures-assoc, Ensures-gets, Ensures-keeps, Ensures-new_id, Ensures-or_raise,
  Ensures-pure, Ensures-then, Ensures-put_cases, Ensures-raise_if, Ensures-transactional,
  Ensures-weaken,
}
use saps_case_dockets.Access.Officers.{Ensures-station_officer}
use saps_case_dockets.Notify.Quiet.{Keeps-audit}
use saps_case_dockets.Investigations.Scope.{Ensures-scope}
use saps_case_dockets.Intake.{
  Material, StatementRequest, station_material, investigator_material, material_scope,
  insert_statement, statement_clashes, version_of, superseded, next_statement, append_statement,
}

-- a row of the query with a version above that
abbrev above : (ComplaintStatement → Bool) → ℕ → ComplaintStatement → Bool
above p version s = p s && ltb version s.statement_version

above_mono :
    (p : ComplaintStatement → Bool) (a b : ℕ) (rows : List ComplaintStatement)
    → leb a b ≡ true
    → exists_where (above p a) rows ≡ false
    → exists_where (above p b) rows ≡ false
unfolding exists_where
above_mono p a b [] h e = refl
above_mono p a b (x ∷ rows) h e = ground (arith, above_mono p a b rows)

above_none :
    (p : ComplaintStatement → Bool) (b : ℕ) (rows : List ComplaintStatement)
    → exists_where p rows ≡ false
    → exists_where (above p b) rows ≡ false
unfolding exists_where
above_none p b [] e = refl
above_none p b (x ∷ rows) e = ground (arith, above_none p b rows)

abbrev pick :
    (ComplaintStatement → Bool)
    → ComplaintStatement
    → Option ComplaintStatement
    → Option ComplaintStatement
pick p x none = if p x then some x else none
pick p x (some y) = if p x && leb y.statement_version x.statement_version then some x else some y

pick-above :
    (p : ComplaintStatement → Bool) (x y : ComplaintStatement) (rows : List ComplaintStatement)
    (best : Option ComplaintStatement)
    → (best ≡ none → exists_where p rows ≡ false)
    → ((z : ComplaintStatement)
        → best ≡ some z
        → exists_where (above p z.statement_version) rows ≡ false)
    → pick p x best ≡ some y
    → exists_where (above p y.statement_version) (x ∷ rows) ≡ false
unfolding exists_where
pick-above p x y rows none f g h = ground (arith, above_none p y.statement_version rows (f refl))
pick-above p x y rows (some z) f g h =
    ground (arith, g z refl, above_mono p z.statement_version y.statement_version rows)

pick-none :
    (p : ComplaintStatement → Bool) (x : ComplaintStatement) (rows : List ComplaintStatement)
    (best : Option ComplaintStatement)
    → (best ≡ none → exists_where p rows ≡ false)
    → pick p x best ≡ none
    → exists_where p (x ∷ rows) ≡ false
unfolding exists_where
pick-none p x rows none f h = ground (arith, f refl)
pick-none p x rows (some z) f h = ground (arith, h)

top_where-none :
    (p : ComplaintStatement → Bool) (rows : List ComplaintStatement)
    → top_where p (λ s. s.statement_version) rows ≡ none
    → exists_where p rows ≡ false
unfolding top_where exists_where
top_where-none p [] h = refl
top_where-none p (x ∷ rows) h = pick-none p x rows _ (top_where-none p rows) h

-- the row of the highest version: no other of the query has one above it
top_where-above :
    (p : ComplaintStatement → Bool) (rows : List ComplaintStatement) (y : ComplaintStatement)
    → top_where p (λ s. s.statement_version) rows ≡ some y
    → exists_where (above p y.statement_version) rows ≡ false
unfolding top_where exists_where
top_where-above p [] y h = refl
top_where-above p (x ∷ rows) y h =
    pick-above p x y rows _ (top_where-none p rows) (top_where-above p rows) h

-- a statement of that complaint that is current, or not below that version
abbrev pub rivals : ℕ → ℕ → ComplaintStatement → Bool
rivals complaint_id version s =
    s.complaint_id == complaint_id && (s.is_current || leb version s.statement_version)

module _ {ℓ κ} {B : Type ℓ} {Q : B → World → Type κ} where
  Ensures-station_material :
      (actor : ℕ) (complaint : Complaint) (charge write initial : Bool) (w : World)
      (k : Material → Tx B)
      → ((m : Material) → m.complaint ≡ complaint → Ensures (k m w) Q)
      → Ensures ((station_material actor complaint charge write initial >>= k) w) Q
  unfolding station_material
  Ensures-station_material actor complaint charge write initial w k next = Ensures-assoc _ _ _ _ (
      Ensures-gets _ _ _ (
        Ensures-assoc _ _ _ _ (
          Ensures-raise_if _ _ _ _ λ _. Ensures-assoc _ _ _ _ (
            Ensures-station_officer _ _ _ _ λ officer _ _. Ensures-assoc _ _ _ _ (
              Ensures-raise_if _ _ _ _ λ _. Ensures-assoc _ _ _ _ (
                Ensures-gets _ _ _ (
                  Ensures-assoc _ _ _ _ (
                    Ensures-gets _ _ _ (
                      Ensures-assoc _ _ _ _ (
                        Ensures-raise_if _ _ _ _ λ _.
                          Ensures-assoc _ _ _ _ (
                            Ensures-raise_if _ _ _ _
                              λ _. Ensures-then _ _ _ (next _ refl))))))))))))

  Ensures-investigator_material :
      (actor : ℕ) (complaint : Complaint) (write : Bool) (w : World) (k : Material → Tx B)
      → ((m : Material) → m.complaint ≡ complaint → Ensures (k m w) Q)
      → Ensures ((investigator_material actor complaint write >>= k) w) Q
  unfolding investigator_material
  Ensures-investigator_material actor complaint write w k next = Ensures-assoc _ _ _ _ (
      Ensures-gets _ _ _ (
        Ensures-assoc _ _ _ _ (
          Ensures-raise_if _ _ _ _ λ _. Ensures-assoc _ _ _ _ (
            Ensures-gets _ _ _ (
              Ensures-assoc _ _ _ _ (
                Ensures-or_raise _ _ _ _ λ docket _. Ensures-assoc _ _ _ _ (
                  Ensures-scope _ _ _ _ _ _ λ officer docket' _.
                    Ensures-assoc _ _ _ _
                      (Ensures-gets _ _ _ (Ensures-then _ _ _ (next _ refl))))))))))

  Ensures-material_if :
      (station investigator : Bool) (actor : ℕ) (complaint : Complaint) (charge write : Bool)
      (initial : Bool) (w : World) (k : Material → Tx B)
      → ((m : Material) → m.complaint ≡ complaint → Ensures (k m w) Q)
      → Ensures
          (((if station
                then station_material actor complaint charge write initial
                else (if investigator
                    then investigator_material actor complaint write
                    else raise (http 403 (codes "Authorised case officer required"))))
              >>= k)
            w)
          Q
  unfolding ◌>>=◌
  Ensures-material_if true investigator actor complaint charge write initial w k next =
      Ensures-station_material actor complaint charge write initial w k next
  Ensures-material_if false true actor complaint charge write initial w k next =
      Ensures-investigator_material actor complaint write w k next
  Ensures-material_if false false actor complaint charge write initial w k next = record {
    holds = tt;
  }

  Ensures-material_scope :
      (actor complaint_id : ℕ) (write initial : Bool) (w : World) (k : Material → Tx B)
      → ((m : Material)
          → first_where (λ c. c.id == complaint_id) w.complaints ≡ some m.complaint
          → Ensures (k m w) Q)
      → Ensures ((material_scope actor complaint_id write initial >>= k) w) Q
  unfolding material_scope
  Ensures-material_scope actor complaint_id write initial w k next = Ensures-assoc _ _ _ _ (
      Ensures-gets _ _ _ (
        Ensures-assoc _ _ _ _ (
          Ensures-or_raise _ _ _ _ λ complaint known. Ensures-assoc _ _ _ _ (
            Ensures-gets _ _ _ (
              Ensures-assoc _ _ _ _ (
                Ensures-gets _ _ _ (
                  Ensures-assoc _ _ _ _ (
                    Ensures-gets _ _ _ (
                      Ensures-material_if _ _ actor complaint _ write initial _ _
                        λ m same. next m (known ∙ ap some (sym same)))))))))))

  Ensures-insert_statement :
      (row : ComplaintStatement) (w : World) (k : Unit {0} → Tx B)
      → (exists_where (statement_clashes row) w.statements ≡ false
          → Ensures
              (k tt (record w {
                db = record w.db {
                  cases = record w.cases { statements = w.statements ++ row ∷ [] };
                };
              }))
              Q)
      → Ensures ((insert_statement row >>= k) w) Q
  unfolding insert_statement
  Ensures-insert_statement row w k next = Ensures-assoc _ _ _ _ (
      Ensures-gets _ _ _ (
        Ensures-assoc _ _ _ _
          (Ensures-raise_if _ _ _ _ λ fresh. Ensures-put_cases _ _ _ (next fresh))))

-- What an answered correction says of its request.
pub record Appended (complaint_id : ℕ) (request : StatementRequest) (w : World)
    (out : ComplaintStatement) (w' : World) : Type 0 where
  pub complaint : Complaint
  pub officer_id : ℕ
  pub id : ℕ
  pub previous : Option ComplaintStatement
  pub known : first_where (λ c. c.id == complaint_id) w.complaints ≡ some complaint
  pub latest :
      top_where (λ s. s.complaint_id == complaint.id) (λ s. s.statement_version) w.statements
      ≡ previous
  pub expected : request.expected_version ≡ version_of previous
  pub row : out ≡ next_statement id complaint.id request officer_id (version_of previous)
  pub fresh : exists_where (statement_clashes out) (superseded previous w.statements) ≡ false
  pub written :
      w'.cases ≡ record w.cases { statements = superseded previous w.statements ++ out ∷ [] }

append_statement-Appended :
    (actor complaint_id : ℕ) (request : StatementRequest) (w : World)
    → Ensures (append_statement actor complaint_id request w) (Appended complaint_id request w)
unfolding append_statement
append_statement-Appended actor complaint_id request w = Ensures-transactional _ _ _ (
    Ensures-material_scope actor complaint_id true false _ _ λ m known. Ensures-gets _ _ _ (
      Ensures-raise_if _ _ _ _ λ expected. Ensures-put_cases _ _ _ (
        Ensures-new_id _ _ (
          Ensures-insert_statement _ _ _ λ fresh.
            Ensures-keeps cases_of _ _ _ (Keeps-audit cases_of (λ _ _. refl) _ _ _ _ _) λ _ w1 same.
              Ensures-pure _ _ (record {
                complaint = m.complaint;
                officer_id = m.officer.id;
                id = _;
                previous = _;
                known = known;
                latest = refl;
                expected = equal_of _ _ expected;
                row = refl;
                fresh = fresh;
                written = same;
              })))))

no_rivals :
    (row : ComplaintStatement) (version : ℕ) (previous : Option ComplaintStatement)
    (rows : List ComplaintStatement)
    → exists_where (above (λ s. s.complaint_id == row.complaint_id) version) rows ≡ false
    → row.statement_version ≡ version + 1
    → row.is_current ≡ true
    → exists_where (statement_clashes row) (superseded previous rows) ≡ false
    → exists_where (rivals row.complaint_id row.statement_version) (superseded previous rows)
      ≡ false
unfolding exists_where update_where
no_rivals row version previous [] a v c f = refl
no_rivals row version previous (s ∷ rows) a v c f =
    ground (arith, no_rivals row version previous rows)

latest_above :
    (complaint_id : ℕ) (previous : Option ComplaintStatement) (rows : List ComplaintStatement)
    → top_where (λ s. s.complaint_id == complaint_id) (λ s. s.statement_version) rows ≡ previous
    → exists_where (above (λ s. s.complaint_id == complaint_id) (version_of previous)) rows ≡ false
latest_above complaint_id none rows h = above_none _ 0 rows (top_where-none _ rows h)
latest_above complaint_id (some y) rows h = top_where-above _ rows y h

-- the statements before the last one
pub record Latest (out : ComplaintStatement) (rows : List ComplaintStatement) : Type 0 where
  pub earlier : List ComplaintStatement
  pub last : rows ≡ earlier ++ out ∷ []
  pub current : out.is_current ≡ true
  pub unrivalled : exists_where (rivals out.complaint_id out.statement_version) earlier ≡ false

-- A correction that returns is the current statement of its complaint, the only one that is, and its
-- version is above every other: the one that the request expected, and one more.
pub append_statement-Latest :
    (actor complaint_id : ℕ) (request : StatementRequest) (w : World)
    → Ensures
        (append_statement actor complaint_id request w)
        λ out w'. Latest out w'.statements × (out.statement_version ≡ request.expected_version + 1)
append_statement-Latest actor complaint_id request w =
    Ensures-weaken _ _ (append_statement-Appended actor complaint_id request w) λ out w' done. (
      record {
        earlier = superseded done.previous w.statements;
        last = ap (λ c. c.statements) done.written;
        current = rw done.row refl;
        unrivalled =
            no_rivals out (version_of done.previous) done.previous w.statements
              (rw done.row (latest_above done.complaint.id done.previous w.statements done.latest))
              (rw done.row refl) (rw done.row refl) done.fresh;
      },
      rw done.row (rw done.expected refl),
    )
