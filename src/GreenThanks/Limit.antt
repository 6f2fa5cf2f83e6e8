-- ===== src/GreenThanks/Limit.antt =====
-- The quarterly limit on the points that an employee sends.
use igreen_backend.Base.{
  ℕ, ◌+◌, ◌≤◌, ◌<◌, ◌≡◌, refl, sym, ap, ◌∙◌, inl, inr, Bool, true, false, List, [], ◌∷◌, arith,
  ◌==◌, All, All-always, All-map, All-append, Bool-cases, Option-cases, ==→eq, elem, subst, get_or,
}
use igreen_backend.Base.Calendar.{Clock, Zone}
use igreen_backend.Store.Table.{
  find_first, find_first-only, find_first-true, update_where, create, IsKeyed, IsKeyed-create,
  IsKeyed-update_where, All-update_where,
}
use igreen_backend.Store.Payroll.{GreenThanks, GreenThanksStatus}
use igreen_backend.Store.Db.{Db, RequestingUser}
use igreen_backend.GreenThanks.{
  CreateGreenThanksDto, ApproveGreenThanksDto, limit_of, quarter_start, quarter_end, counts_towards,
  sum_points, new_green_thanks, create_green_thanks, is_green_thanks_of, decided_as, approve,
  green_thanks_paid, mark_green_thanks_paid,
}
use igreen_backend.GreenThanks.Points.{
  sum_points-update_where, sum_points-create, sum_points-create_other, create_effect,
  approve_effect, approve_miss,
}

-- The calls of the service that write, of one organization.
pub data ThanksCall : Type 0 where
  create_call : Clock → RequestingUser → CreateGreenThanksDto → ThanksCall
  approve_call : Clock → ℕ → RequestingUser → ℕ → ApproveGreenThanksDto → ThanksCall
  paid_call : List ℕ → ThanksCall

abbrev pub run_thanks_call : Zone → ℕ → ThanksCall → Db → Db
run_thanks_call zone org (create_call clock user dto) db =
    (create_green_thanks zone clock org user dto db).1
run_thanks_call zone org (approve_call clock user_id user id dto) db =
    (approve clock org user_id user id dto db).1
run_thanks_call zone org (paid_call ids) db = mark_green_thanks_paid ids db

pub run_thanks_calls : Zone → ℕ → List ThanksCall → Db → Db
run_thanks_calls zone org [] db = db
run_thanks_calls zone org (c ∷ cs) db = run_thanks_calls zone org cs (run_thanks_call zone org c db)

module _ (zone : Zone) (org start end : ℕ) where
  -- A call that sends points is made in the quarter.
  abbrev pub InQuarter : ThanksCall → Type 0
  InQuarter (create_call clock user dto) =
      (quarter_start zone clock ≡ start) × (quarter_end zone clock ≡ end)
  InQuarter (approve_call clock user_id user id dto) = Unit
  InQuarter (paid_call ids) = Unit

  -- The points of the quarter that an employee has sent and that are not rejected.
  abbrev pub used : ℕ → Db → ℕ
  used employee db = sum_points (counts_towards start end employee) db.green_thanks

  -- Identifiers are distinct and old, and no employee has sent more than the limit in the quarter.
  pub record IsWithin (db : Db) : Type 0 where
    pub keyed : IsKeyed (λ (g : GreenThanks). g.id) db.green_thanks
    pub old : All (λ (g : GreenThanks). g.id < db.next_id) db.green_thanks
    pub within : (employee : ℕ) → used employee db ≤ limit_of db org

  IsWithin-create :
      (db : Db) (from now : ℕ) (dto : CreateGreenThanksDto)
      → IsWithin db
      → used from db + dto.points ≤ limit_of db org
      → IsWithin (record db {
        next_id = db.next_id + 1;
        green_thanks = create (new_green_thanks db.next_id now from dto) db.green_thanks;
      })
  IsWithin-create db from now dto h bound =
      let row = new_green_thanks db.next_id now from dto in
      record {
        keyed = IsKeyed-create (λ (g : GreenThanks). g.id) row db.green_thanks h.keyed h.old;
        old =
            All-append (λ (g : GreenThanks). g.id < db.next_id + 1) db.green_thanks (row ∷ [])
              (All-map (λ (g : GreenThanks). g.id < db.next_id)
                (λ (g : GreenThanks). g.id < db.next_id + 1) (λ g k. omega arith) db.green_thanks
                h.old)
              (omega arith, tt);
        within = λ employee.
            let p = counts_towards start end employee in
            elim (Bool-cases (from == employee)) [
              | inl e ↦
                  let same : from ≡ employee = ==→eq from employee e in
                  let mine : used employee db + dto.points ≤ limit_of db org =
                    subst (λ i. used i db + dto.points ≤ limit_of db org) same bound in
                  omega (arith, mine, sum_points-create p row db.green_thanks)
              | inr e ↦
                  let other : p row ≡ false = rw e refl in
                  rw (sum_points-create_other p row db.green_thanks other) (h.within employee)
            ];
      }

  -- An update that keeps points and identifiers, and makes no row count that did not.
  IsWithin-update_where :
      (db : Db) (q : GreenThanks → Bool) (f : GreenThanks → GreenThanks)
      → IsWithin db
      → ((x : GreenThanks) → (f x).id ≡ x.id)
      → ((employee : ℕ)
          → All
              (λ (x : GreenThanks).
                q x ≡ true
                → ((f x).points ≡ x.points)
                  × (counts_towards start end employee (f x) ≡ true
                      → counts_towards start end employee x ≡ true))
              db.green_thanks)
      → IsWithin (record db { green_thanks = update_where q f db.green_thanks })
  IsWithin-update_where db q f h same k = record {
    keyed =
        IsKeyed-update_where (λ (g : GreenThanks). g.id) q f (λ x _. same x) db.green_thanks
          h.keyed;
    old =
        All-update_where (λ (g : GreenThanks). g.id < db.next_id) q f db.green_thanks h.old
          (All-map (λ (g : GreenThanks). g.id < db.next_id)
            (λ (g : GreenThanks). q g ≡ true → (f g).id < db.next_id)
            (λ g old _. subst (λ i. i < db.next_id) (sym (same g)) old) db.green_thanks h.old);
    within = λ employee. omega (
      arith,
      h.within employee,
      sum_points-update_where (counts_towards start end employee) q f db.green_thanks (k employee),
    );
  }

  -- A decision on a pending row makes nothing count that did not.
  decided_counts :
      (clock : Clock) (user_id employee : ℕ) (dto : ApproveGreenThanksDto) (g : GreenThanks)
      → g.status ≡ GreenThanksStatus.pending
      → ((decided_as clock user_id dto g).points ≡ g.points)
        × (counts_towards start end employee (decided_as clock user_id dto g) ≡ true
            → counts_towards start end employee g ≡ true)
  decided_counts clock user_id employee dto g h = (ground arith, λ k. ground arith)

  approve-IsWithin :
      (clock : Clock) (user_id : ℕ) (user : RequestingUser) (id : ℕ) (dto : ApproveGreenThanksDto)
      (db : Db)
      → IsWithin db
      → IsWithin (approve clock org user_id user id dto db).1
  approve-IsWithin clock user_id user id dto db h =
      let p = is_green_thanks_of db org id in
      elim (Option-cases (find_first p db.green_thanks)) [
        | inl e0 ↦ subst IsWithin (sym (approve_miss clock org user_id user id dto db e0)) h
        | inr (g, e1) ↦ elim (approve_effect clock org user_id user id dto db g e1) [
          | inl same ↦ subst IsWithin (sym same) h
          | inr (pending, e) ↦
              let here : g.id ≡ id = ground (arith, find_first-true p db.green_thanks g e1) in
              subst IsWithin (sym e) (
                IsWithin-update_where db (λ (x : GreenThanks). x.id == id)
                  (decided_as clock user_id dto) h (λ x. ground arith)
                  (λ employee.
                    All-map (λ (x : GreenThanks). (x.id == g.id) ≡ true → x ≡ g)
                      (λ (x : GreenThanks).
                        (x.id == id) ≡ true
                        → ((decided_as clock user_id dto x).points ≡ x.points)
                          × (counts_towards start end employee (decided_as clock user_id dto x)
                                ≡ true
                              → counts_towards start end employee x ≡ true))
                      (λ x only m.
                        decided_counts clock user_id employee dto x
                          (ap (λ (y : GreenThanks). y.status) (only (rw here m)) ∙ pending))
                      db.green_thanks
                      (find_first-only (λ (x : GreenThanks). x.id) p db.green_thanks g h.keyed e1)))
        ]
      ]

  mark_green_thanks_paid-IsWithin :
      (ids : List ℕ) (db : Db) → IsWithin db → IsWithin (mark_green_thanks_paid ids db)
  unfolding mark_green_thanks_paid
  mark_green_thanks_paid-IsWithin ids db h =
      IsWithin-update_where db (λ g. elem g.id ids) green_thanks_paid h (λ x. refl)
        (λ employee.
          All-always
            (λ (x : GreenThanks).
              elem x.id ids ≡ true
              → ((green_thanks_paid x).points ≡ x.points)
                × (counts_towards start end employee (green_thanks_paid x) ≡ true
                    → counts_towards start end employee x ≡ true))
            (λ x _. (refl, λ k. k)) db.green_thanks)

  create_green_thanks-IsWithin :
      (clock : Clock) (user : RequestingUser) (dto : CreateGreenThanksDto) (db : Db)
      → quarter_start zone clock ≡ start
      → quarter_end zone clock ≡ end
      → IsWithin db
      → IsWithin (create_green_thanks zone clock org user dto db).1
  create_green_thanks-IsWithin clock user dto db s e h =
      let from = get_or user.employee_id 0 in
      elim (create_effect zone clock org user dto db) [
        | inl same ↦ subst IsWithin (sym same) h
        | inr (bound, made) ↦
            let mine : used from db + dto.points ≤ limit_of db org =
              subst
                (λ i.
                  sum_points (counts_towards i end from) db.green_thanks + dto.points
                  ≤ limit_of db org)
                s
                (subst
                  (λ i.
                    sum_points (counts_towards (quarter_start zone clock) i from) db.green_thanks
                      + dto.points
                    ≤ limit_of db org)
                  e bound) in
            subst IsWithin (sym made) (IsWithin-create db from clock.now dto h mine)
      ]

  run_thanks_call-IsWithin :
      (c : ThanksCall) (db : Db)
      → InQuarter c
      → IsWithin db
      → IsWithin (run_thanks_call zone org c db)
  run_thanks_call-IsWithin (create_call clock user dto) db (s, e) h =
      create_green_thanks-IsWithin clock user dto db s e h
  run_thanks_call-IsWithin (approve_call clock user_id user id dto) db q h =
      approve-IsWithin clock user_id user id dto db h
  run_thanks_call-IsWithin (paid_call ids) db q h = mark_green_thanks_paid-IsWithin ids db h

  -- Calls that send, decide and pay green thanks of an organization, in any order, keep that no
  -- employee has sent more points than the limit in the quarter that the calls are made in, rejected
  -- ones not counted, as long as the limit is not changed.
  pub run_thanks_calls-IsWithin :
      (cs : List ThanksCall) (db : Db)
      → All InQuarter cs
      → IsWithin db
      → IsWithin (run_thanks_calls zone org cs db)
  unfolding run_thanks_calls
  run_thanks_calls-IsWithin [] db q h = h
  run_thanks_calls-IsWithin (c ∷ cs) db q h =
      run_thanks_calls-IsWithin cs (run_thanks_call zone org c db) q.1
        (run_thanks_call-IsWithin c db q.0 h)
