-- ===== src/RunnerPolicy/Applied.antt =====
-- What a policy leaves.
use Prim.Native.String.{String}
use the_dudes_daemon.Base.{
  ◌≡◌, refl, ◌∙◌, ap, inl, inr, Bool, true, false, ◌&&◌, some, List, [], ◌∷◌, arith, if◌then◌else◌,
  ◌==◌, contains, lookup, insert, lookup-insert, comparable_string, Bool-cases, filter,
}
use the_dudes_daemon.RunnerPolicy.{
  Availability, or_false, is_available, apply_runner_policy, hello_runner_lists,
}

is_available-insert :
    (runner other : String) (b : Bool) (m : Availability)
    → is_available other (insert runner b m) ≡ (if runner == other then b else is_available other m)
unfolding is_available
is_available-insert runner other b m =
    ap or_false (lookup-insert runner other b m) ∙ chosen (runner == other)
  where
    chosen :
        (c : Bool)
        → or_false (if c then some b else lookup other m)
          ≡ (if c then b else or_false (lookup other m))
    chosen true = refl
    chosen false = refl

-- After a policy a runner that it is about is available exactly when it is installed and allowed, whatever
-- earlier policies left; any other runner is as it was.
pub apply_runner_policy_lem :
    (runners : List String) (cli_commands installed : Availability) (allowed : List String)
    (runner : String)
    → is_available runner (apply_runner_policy runners cli_commands installed allowed) ≡ (
        if contains runner runners
        then is_available runner installed && contains runner allowed
        else is_available runner cli_commands)
unfolding apply_runner_policy
apply_runner_policy_lem [] cli_commands installed allowed runner = refl
apply_runner_policy_lem (r ∷ runners) cli_commands installed allowed runner =
    let now = is_available r installed && contains r allowed in
    let later =
      apply_runner_policy_lem runners (insert r now cli_commands) installed allowed runner in
    let first = is_available-insert r runner now cli_commands in
    elim (Bool-cases (contains runner runners)) [
      | inl e ↦
          rw (later, e) (elim (Bool-cases (r == runner)) [ inl k ↦ rw k refl | inr k ↦ rw k refl ])
      | inr e ↦
          rw (later, e, first)
            (elim (Bool-cases (r == runner)) [
              | inl k ↦ rw k (
                  ap (λ x. is_available x installed && contains x allowed)
                    ((comparable_string.agree_iff r runner).0 k))
              | inr k ↦ rw k refl
            ])
    ]

filter-eq :
    (p q : String → Bool) (runners : List String)
    → ((r : String) → contains r runners ≡ true → p r ≡ q r)
    → filter p runners ≡ filter q runners
filter-eq p q [] h = refl
filter-eq p q (r ∷ runners) h =
    let same = h r (ground (arith, comparable_string.agree_iff r r)) in
    let rest = filter-eq p q runners (λ x k. h x (ground (arith, k))) in rw (same, rest) refl

-- After a policy the daemon's hello names as available, in the order of the protocol's list, exactly the
-- runners that are installed and allowed, and as installed all that are, whatever is allowed.
pub hello_runner_lists-apply_runner_policy :
    (runners : List String) (cli_commands installed : Availability) (allowed : List String)
    → hello_runner_lists runners
        (apply_runner_policy runners cli_commands installed allowed)
        (some installed)
      ≡ (
        filter (λ r. is_available r installed && contains r allowed) runners,
        filter (λ r. is_available r installed) runners,
      )
unfolding hello_runner_lists
hello_runner_lists-apply_runner_policy runners cli_commands installed allowed =
    ap (λ l. (l, filter (λ r. is_available r installed) runners))
      (filter-eq (λ r. is_available r (apply_runner_policy runners cli_commands installed allowed))
        (λ r. is_available r installed && contains r allowed) runners
        (λ r h. apply_runner_policy_lem runners cli_commands installed allowed r ∙ rw h refl))
