-- ===== src/Approvals/Checked.antt =====
-- Who may decide an approval (src/modules/approvals/approvals.service.ts).
use alke_finance_backend.Base.{
  ℕ, ◌≡◌, ◌≢◌, inl, inr, ap, ◌∙◌, subst, arith, ◌==◌, true, false, not, ◌||◌, Option-cases, some,
  List, ok, >>=-eq-ok, throw_if_ok, ok_injective,
}
use alke_finance_backend.Approvals.{
  User, PendingApproval, Db, is_pending, is_checker_role, find_approval, find_user, assert_checker,
  check,
}

-- What the tests of `approve` and `reject` have seen when they pass.
pub record Checked (id checker : ℕ) (db : Db) (a : PendingApproval) : Type 0 where
  pub found : find_approval id db.approvals ≡ some a
  pub open_state : is_pending a.state ≡ true
  pub other_person : a.maker_id ≢ checker
  pub person : User
  pub known : find_user checker db.users ≡ some person
  pub role : is_checker_role person.role ≡ true
  pub active : person.is_blocked ≡ false

assert_checker_sound :
    (a : PendingApproval) (checker : ℕ) (users : List User) {u : User}
    → assert_checker a checker users ≡ ok u
    → (a.maker_id ≢ checker)
      × (find_user checker users ≡ some u)
      × (is_checker_role u.role ≡ true)
      × (u.is_blocked ≡ false)
unfolding assert_checker
assert_checker_sound a checker users {u} h =
    let s = throw_if_ok (a.maker_id == checker) _ _ h in
    let other : a.maker_id ≢ checker = λ e. ground (arith, s.0) in
    elim (Option-cases (find_user checker users)) [
      | inl absent ↦ cc (rw absent at s.1)
      | inr (p, known) ↦
          let t =
            throw_if_ok (not (is_checker_role p.role) || p.is_blocked) _ _ (rw known at s.1) in
          let e = ok_injective t.1 in
          (
            other,
            known ∙ ap some e,
            subst (λ x. is_checker_role x.role ≡ true) e (ground (arith, t.0)),
            subst (λ x. x.is_blocked ≡ false) e (ground (arith, t.0)),
          )
    ]

pub check-Checked :
    (id checker : ℕ) (db : Db) {a : PendingApproval}
    → check id checker db ≡ ok a
    → Checked id checker db a
unfolding check
check-Checked id checker db {a} h = elim (Option-cases (find_approval id db.approvals)) [
  | inl absent ↦ cc (rw (absent, check) at h)
  | inr (x, found) ↦
      let (u, hu, h1) = >>=-eq-ok (assert_checker x checker db.users) _ (rw (found, check) at h) in
      let t = throw_if_ok (not (is_pending x.state)) _ _ h1 in
      let (other, known, role, active) = assert_checker_sound x checker db.users hu in
      subst (Checked id checker db) (ok_injective t.1) (record {
        found = found;
        open_state = ground (arith, t.0);
        other_person = other;
        person = u;
        known = known;
        role = role;
        active = active;
      })
]
