-- ===== src/Grants/Issuing.antt =====
-- `issue_activation_codes` of src/subscription_grants.py: all the codes asked for, or none.
use tele_group.Base.{
  ℕ, zero, suc, ◌+◌, ◌≤◌, ◌≡◌, refl, sym, ap, ◌∙◌, ◌⊎◌, inl, inr, true, false, Option, none, some,
  List, [], ◌∷◌, ◌++◌, map, arith, ◌==◌, Bool-cases, All, length, none≢some, subst_some, ==→≡,
  first-eq_some,
}
use mathlib.Core.List.{append-nil, append_assoc}
use tele_group.Base.{sym, ap, ◌∙◌, Option}
use tele_group.Grants.Issue.{
  issue_on_plan, issue_checked, issue_activation_codes, IssueOutcome, issued, issue_error,
  issue_refused,
}
use tele_group.Grants.Tables.{Plan, ErrorCode, transaction_cases, db_error}
use tele_group.Grants.Tables.{ActivationCode, Tables, >>=-eq_some}
use tele_group.Grants.Issue.{
  IssueRequest, has_token, insert_code, insert_codes, new_code, code_prefix, max_attempts,
}
use tele_group.Text.{Text}
use tele_group.Grants.Apply.{find_plan}
use tele_group.Grants.Tokens.{
  DistinctTokens, DistinctTokens-append, AscendingCodes, AscendingCodes-append,
}

-- A row of this request, not yet used or revoked.
abbrev pub IsIssuedRow : IssueRequest → ActivationCode → Type 0
IsIssuedRow q c =
    (c.plan_id ≡ q.plan_id)
    × (c.duration_days ≡ q.duration_days)
    × (c.created_by ≡ q.admin_telegram_id)
    × (c.expires_at ≡ q.expires_at)
    × (c.used_at ≡ none)
    × (c.revoked_at ≡ none)

-- What the insertion of `rows` has done.
pub record IsIssue (q : IssueRequest) (rows : List ActivationCode) (t t' : Tables) : Type 0 where
  pub added : t'.codes ≡ t.codes ++ rows
  pub as_asked : All (IsIssuedRow q) rows
  pub distinct : DistinctTokens t.codes → DistinctTokens t'.codes
  pub ascending : AscendingCodes 0 t.codes t.next_code → AscendingCodes 0 t'.codes t'.next_code
  pub new_ids : All (λ c. t.next_code ≤ c.id) rows
  pub next_grows : t.next_code ≤ t'.next_code
  pub subscriptions_same : t'.subscriptions ≡ t.subscriptions
  pub next_subscription_same : t'.next_subscription ≡ t.next_subscription
  pub grants_same : t'.grants ≡ t.grants
  pub users_same : t'.users ≡ t.users

module _ (q : IssueRequest) (draws : ℕ → Text) where
  IsIssue-nil : (t : Tables) → IsIssue q [] t t
  IsIssue-nil t = record {
    added = sym (append-nil t.codes);
    as_asked = tt;
    distinct = λ d. d;
    ascending = λ a. a;
    new_ids = tt;
    next_grows = omega arith;
    subscriptions_same = refl;
    next_subscription_same = refl;
    grants_same = refl;
    users_same = refl;
  }

  above :
      (lo hi : ℕ) (rows : List ActivationCode)
      → lo ≤ hi
      → All (λ c. hi ≤ c.id) rows
      → All (λ c. lo ≤ c.id) rows
  above lo hi [] le h = tt
  above lo hi (c ∷ rows) le h = (omega (arith, h.0), above lo hi rows le h.1)

  IsIssue-cons :
      (c : ActivationCode) (rows : List ActivationCode) (t s s' : Tables)
      → IsIssue q (c ∷ []) t s
      → IsIssue q rows s s'
      → IsIssue q (c ∷ rows) t s'
  IsIssue-cons c rows t s s' i j = record {
    added = j.added ∙ rw i.added (append_assoc t.codes (c ∷ []) rows);
    as_asked = (i.as_asked.0, j.as_asked);
    distinct = λ d. j.distinct (i.distinct d);
    ascending = λ a. j.ascending (i.ascending a);
    new_ids = (i.new_ids.0, above t.next_code s.next_code rows i.next_grows j.new_ids);
    next_grows = omega (arith, i.next_grows, j.next_grows);
    subscriptions_same = j.subscriptions_same ∙ i.subscriptions_same;
    next_subscription_same = j.next_subscription_same ∙ i.next_subscription_same;
    grants_same = j.grants_same ∙ i.grants_same;
    users_same = j.users_same ∙ i.users_same;
  }

  insert_code-IsIssue :
      (attempts n : ℕ) (t : Tables) (r : (ActivationCode × ℕ) × Tables)
      → insert_code q draws attempts n t ≡ some r
      → IsIssue q (r.0.0 ∷ []) t r.1
  unfolding insert_code
  insert_code-IsIssue zero n t r h = none≢some h
  insert_code-IsIssue (suc attempts) n t r h =
      elim (Bool-cases (has_token (code_prefix ++ draws n) t.codes)) [
        | inl taken ↦ insert_code-IsIssue attempts (n + 1) t r (rw taken at h)
        | inr free ↦ subst_some Inserted (rw free at h) (record {
          added = refl;
          as_asked = ((refl, refl, refl, refl, refl, refl), tt);
          distinct = λ d. DistinctTokens-append t.codes row d free;
          ascending = λ a. AscendingCodes-append 0 t.next_code t.codes row a refl;
          new_ids = omega arith;
          next_grows = omega arith;
          subscriptions_same = refl;
          next_subscription_same = refl;
          grants_same = refl;
          users_same = refl;
        })
      ]
    where
      Inserted : (ActivationCode × ℕ) × Tables → Type 0
      Inserted x = IsIssue q (x.0.0 ∷ []) t x.1

      row : ActivationCode
      row = new_code q t.next_code (code_prefix ++ draws n)

  insert_codes-IsIssue :
      (count n : ℕ) (t : Tables) (r : List ActivationCode × Tables)
      → insert_codes q draws count n t ≡ some r
      → IsIssue q r.0 t r.1 × (length r.0 ≡ count)
  unfolding insert_codes
  insert_codes-IsIssue zero n t r h = subst_some Inserted h (IsIssue-nil t, refl)
    where
      Inserted : List ActivationCode × Tables → Type 0
      Inserted x = IsIssue q x.0 t x.1 × (length x.0 ≡ 0)
  insert_codes-IsIssue (suc count) n t r h =
      let (a, s, ran, rest) = >>=-eq_some (insert_code q draws max_attempts n) _ t h in
      let (rows, s', ran', rest') = >>=-eq_some (insert_codes q draws count a.1) _ s rest in
      let i = insert_code-IsIssue max_attempts n t (a, s) ran in
      let (j, len) = insert_codes-IsIssue count a.1 s (rows, s') ran' in
      subst_some Inserted rest' (IsIssue-cons a.0 rows t s s' i j, ap suc len)
    where
      Inserted : List ActivationCode × Tables → Type 0
      Inserted x = IsIssue q x.0 t x.1 × (length x.0 ≡ suc count)

-- What an issue that is reported as done has done.
pub record IsIssued (q : IssueRequest) (t : Tables) (o : IssueOutcome) (t' : Tables) : Type 0 where
  pub plan : Plan
  pub rows : List ActivationCode
  pub planned : find_plan q.plan_id t ≡ some plan
  pub inserted : IsIssue q rows t t'
  pub as_many : length rows ≡ q.count
  pub reported : o.codes ≡ map (issued plan) rows

-- An issue is refused and changes nothing, or it is done.
abbrev pub IssueVerdict : IssueRequest → Tables → IssueOutcome × Tables → Type 0
IssueVerdict q t (o, t') = ((o.ok ≡ false) × (t' ≡ t)) ⊎ ((o.ok ≡ true) × IsIssued q t o t')

module _ (q : IssueRequest) (draws : ℕ → Text) (now : ℕ) (t : Tables) where
  issue_on_plan-Verdict :
      (p : Option Plan)
      → find_plan q.plan_id t ≡ p
      → (r : IssueOutcome × Tables) → issue_on_plan q draws p t ≡ some r
      → IssueVerdict q t r
  unfolding issue_on_plan
  issue_on_plan-Verdict none e r h =
      inl (subst_some (λ x. (x.0.ok ≡ false) × (x.1 ≡ t)) h (refl, refl))
  issue_on_plan-Verdict (some plan) e r h =
      let same : plan.id ≡ q.plan_id =
        ==→≡ plan.id q.plan_id (first-eq_some (λ p. p.id == q.plan_id) t.plans e) in
      let (rows, s, ran, rest) =
        >>=-eq_some (insert_codes (record q { plan_id = plan.id }) draws q.count 0) _ t h in
      inr (
        subst_some Issued rest (
          done plan rows s e (insert_codes-IsIssue q draws q.count 0 t (rows, s) (rw same at ran))))
    where
      Issued : IssueOutcome × Tables → Type 0
      Issued x = (x.0.ok ≡ true) × IsIssued q t x.0 x.1

      done :
          (plan : Plan) (rows : List ActivationCode) (s : Tables)
          → find_plan q.plan_id t ≡ some plan
          → IsIssue q rows t s × (length rows ≡ q.count)
          → Issued (record { ok = true; error = none; codes = map (issued plan) rows }, s)
      done plan rows s e (i, len) = (
        refl,
        record {
          plan = plan;
          rows = rows;
          planned = e;
          inserted = i;
          as_many = len;
          reported = refl;
        },
      )

  issue_checked-Verdict : (e : Option ErrorCode) → IssueVerdict q t (issue_checked q draws e t)
  unfolding issue_checked
  issue_checked-Verdict (some e) = inl (refl, refl)
  issue_checked-Verdict none =
      transaction_cases (IssueVerdict q t) (issue_refused db_error)
        (λ s. issue_on_plan q draws (find_plan q.plan_id s) s) t (inl (refl, refl))
        (issue_on_plan-Verdict (find_plan q.plan_id t) refl)

  -- An issue is refused, with any error, and changes nothing; or it has added exactly the number of
  -- codes asked for, unused, unrevoked and as asked, with tokens that differ from each other and from
  -- those that were there (if those differed), and it reports these codes.
  pub issue_activation_codes-Verdict : IssueVerdict q t (issue_activation_codes q draws now t)
  unfolding issue_activation_codes
  issue_activation_codes-Verdict = issue_checked-Verdict (issue_error q now)
