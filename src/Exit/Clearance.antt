-- ===== src/Exit/Clearance.antt =====
-- When a record becomes CLEARED, and what an update does to one that is.
use igreen_backend.Base.{
  ℕ, ◌≡◌, refl, ◌⊎◌, ◌↔◌, true, false, some, String, List, [], ◌∷◌, arith, get_or, every, ap,
}
use igreen_backend.Base.Calendar.{Clock}
use igreen_backend.Store.Table.{find_first}
use igreen_backend.Store.Exit.{
  initiated, clearance_pending, cleared, DepartmentClearance, ExitRecord,
}
use igreen_backend.Store.Db.{Db, ok}
use igreen_backend.Assets.{count_unreturned_assignments_for_employee}
use igreen_backend.Exit.{
  UpdateClearanceDto, DepartmentClearanceDto, is_exit_of, clearance_entry, put_department,
  uncleared, update_clearance,
}
use igreen_backend.Exit.Departments.{are_last_cleared, are_others_cleared, put_departments-cleared}
use igreen_backend.Exit.Lifecycle.{document, advanced, update_clearance_runs}

-- What the record must fulfil to be cleared by the update: the update does not ask to stay, the last
-- update of each department says that it is cleared, the other departments of the record are
-- cleared, no asset is out, and the knowledge is handed over, by the update if it says so and by the
-- record if not. A record without a document has no department and nothing handed over.
abbrev pub MayClear : (String → String) → UpdateClearanceDto → ℕ → ExitRecord → Type 0
MayClear lower dto n r =
    let current = get_or r.clearance_status (uncleared []) in
    let updates = get_or dto.departments [] in
    (get_or dto.advance_to_cleared_if_complete true ≡ true)
    × (are_last_cleared lower updates ≡ true)
    × (are_others_cleared lower updates [] current.departments ≡ true)
    × (n ≡ 0)
    × (get_or dto.knowledge_transfer_complete current.knowledge_transfer_cleared ≡ true)

advanced_iff :
    (lower : String → String) (now : ℕ) (dto : UpdateClearanceDto) (n : ℕ) (r : ExitRecord)
    → (r.status ≡ initiated) ⊎ (r.status ≡ clearance_pending)
    → ((advanced lower now dto n r r).status ≡ cleared) ↔ MayClear lower dto n r
advanced_iff lower now dto n r live =
    let all =
      put_departments-cleared lower now (get_or dto.departments [])
        (get_or r.clearance_status (uncleared [])).departments in
    (
      λ h. (
        ground (arith, all),
        ground (arith, all),
        ground (arith, all),
        ground arith,
        ground arith,
      ),
      λ (advance, last, others, none_out, told). ground (arith, all),
    )

-- The update of the clearance of a record that is INITIATED or CLEARANCE_PENDING, whose employee
-- has `n` assets out, goes through, and the record is then CLEARED just when the update does not
-- ask to stay (advanceToClearedIfComplete is not false), the last update of each department that it
-- names says cleared, the other departments of the record are cleared, `n` is 0, and
-- knowledgeTransferComplete is true, or left out where the record has the knowledge handed over.
pub update_clearance_clears :
    (lower : String → String) (clock : Clock) (org id : ℕ) (dto : UpdateClearanceDto) (db : Db)
    (r : ExitRecord) (n : ℕ)
    → find_first (is_exit_of org id) db.exits ≡ some r
    → (r.status ≡ initiated) ⊎ (r.status ≡ clearance_pending)
    → (count_unreturned_assignments_for_employee org r.employee_id db).0 ≡ ok n
    → (r' : ExitRecord) × ((update_clearance lower clock org id dto db).0 ≡ ok r')
      × ((r'.status ≡ cleared) ↔ MayClear lower dto n r)
update_clearance_clears lower clock org id dto db r n e live c = (
  advanced lower clock.now dto n r r,
  ap (λ o. o.0) (update_clearance_runs lower clock org id dto db r n e (ground arith) c),
  advanced_iff lower clock.now dto n r live,
)

put_uncleared :
    (lower : String → String) (entry : DepartmentClearance) (ds : List DepartmentClearance)
    → entry.cleared ≡ false
    → every (λ (d : DepartmentClearance). d.cleared) (put_department lower entry ds) ≡ false
put_uncleared lower entry [] h = ground arith
put_uncleared lower entry (d ∷ ds) h = ground (arith, put_uncleared lower entry ds h)

-- An update that marks one department as not cleared on a record that is CLEARED goes through and
-- leaves the record CLEARED, with a document in which not every department is cleared.
pub update_clearance_stays :
    (lower : String → String) (clock : Clock) (org id : ℕ) (dto : UpdateClearanceDto) (db : Db)
    (r : ExitRecord) (n : ℕ) (u : DepartmentClearanceDto)
    → find_first (is_exit_of org id) db.exits ≡ some r
    → r.status ≡ cleared
    → (count_unreturned_assignments_for_employee org r.employee_id db).0 ≡ ok n
    → dto.departments ≡ some (u ∷ [])
    → u.cleared ≡ false
    → (r' : ExitRecord) × ((update_clearance lower clock org id dto db).0 ≡ ok r')
      × (r'.status ≡ cleared)
      × (every
            (λ (d : DepartmentClearance). d.cleared)
            (document lower clock.now dto n r).departments
          ≡ false)
      × (r'.clearance_status ≡ some (document lower clock.now dto n r))
update_clearance_stays lower clock org id dto db r n u e s c given marked =
    let undone =
      put_uncleared lower (clearance_entry clock.now u)
        (get_or r.clearance_status (uncleared [])).departments marked in
    (
      advanced lower clock.now dto n r r,
      ap (λ o. o.0) (update_clearance_runs lower clock org id dto db r n e (ground arith) c),
      ground (arith, undone),
      rw given undone,
      refl,
    )
