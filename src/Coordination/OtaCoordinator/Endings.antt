-- ===== src/Coordination/OtaCoordinator/Endings.antt =====
-- ota_coordinator.py: how rolling and canary updates end.
use mathlib.Core.List.{append_assoc, append-nil}
use g_io_t_edge_gateway.Prelude.{
  Bool, Bool-cases, List, Option, String, [], arith, contains, false, if◌then◌else◌, inl, inr,
  nat_eq, none, refl, some, string_eq, subst, sym, true, ℕ, ◌++◌, ◌==◌, ◌∙◌, ◌∷◌, ◌≡◌, ◌⊎◌,
}
use g_io_t_edge_gateway.Dict.{Dict, insert}
use g_io_t_edge_gateway.Redis.{Redis, RedisLaws}
use g_io_t_edge_gateway.Coordination.ClusterState.{ClusterState}
use g_io_t_edge_gateway.Coordination.OtaCoordinator.{
  Ota, Outcome, and_then, canary_loop, check_health, completed, fail_canary, finish, raised,
  record_ota_event, stuck, unhealthy, update_node,
}
use g_io_t_edge_gateway.Coordination.OtaCoordinator.Rollout.{
  AllDeployed, Ends, Passed, StoppedAt, aim, all_done, and_then-lem, answer, broken,
  check_health-lem, further, nobody, record_ota_event-After, rollback_node-After, stopped,
  update_node-After,
}

contains-snoc :
    (j id : String) (before : List String)
    → contains j (before ++ id ∷ []) ≡ (if id == j then true else contains j before)
unfolding contains
contains-snoc j id [] = ground arith
contains-snoc j id (k ∷ before) = ground (arith, contains-snoc j id before)

module _ (r : Redis) (laws : RedisLaws r) (t : ℕ) (payload : String → String → List String → String)
    (others : ℕ → ClusterState → ClusterState) (health_timeout : ℕ) (firmware : String) where
  abbrev pub now_target : Ota r → String → Option String
  now_target = aim r t payload others health_timeout firmware

  abbrev pub HasPassed : Ota r → List String → Type 0
  HasPassed = Passed r t payload others health_timeout firmware

  abbrev pub Deployed : List String → Ota r → Ota r → Type 0
  Deployed = AllDeployed r t payload others health_timeout firmware

  abbrev pub EndsAs : List String → Ota r → Ota r × Outcome → Type 0
  EndsAs ids o (o', out) = Ends r t payload others health_timeout firmware ids o o' out

  abbrev pub health_answer : Ota r → String → Option Bool
  health_answer = answer r t payload others health_timeout firmware

  -- Redis raised at a request about the node `id`.
  broken_at :
      (before ids : List String) (id : String) (o o' : Ota r)
      → HasPassed o before
      → ((j : String)
          → (id == j) ≡ false
          → now_target o' j ≡ (if contains j before then some firmware else now_target o j))
      → EndsAs (before ++ id ∷ ids) o (o', raised)
  unfolding contains
  broken_at before ids id o o' passed rest =
      broken before (id ∷ []) ids refl (omega arith) passed (λ j. elim (Bool-cases (id == j)) [
        | inl same ↦ inl (ground (arith, same))
        | inr differ ↦ inr (rest j differ)
      ])

  -- Redis raised at a request about no node.
  broken_after :
      (before ids : List String) (o o' : Ota r)
      → HasPassed o before
      → Deployed before o o'
      → EndsAs (before ++ ids) o (o', raised)
  broken_after before ids o o' passed deployed =
      broken before [] ids refl (omega arith) passed (λ j. inr (deployed j))

  -- The node `id` has the new firmware as its target, and fails its check.
  abbrev pub Fails : List String → String → Ota r → Type 0
  Fails before id o =
      HasPassed o before
      × ((w : Ota r) × Deployed (before ++ id ∷ []) o w × (health_answer w id ≡ some false))

  rolled_back :
      (before : List String) (id : String) (o o' o'' : Ota r)
      → Deployed (before ++ id ∷ []) o o'
      → ((j : String) → now_target o'' j ≡ (if id == j then none else now_target o' j))
      → StoppedAt r t payload others health_timeout firmware id before o o''
  rolled_back before id o o' o'' deployed back j =
      ground (arith, back j, deployed j, contains-snoc j id before)

  rollback-raised :
      (before ids : List String) (id : String) (o o' o'' : Ota r)
      → HasPassed o before
      → Deployed (before ++ id ∷ []) o o'
      → ((j : String)
          → (now_target o'' j ≡ (if id == j then none else now_target o' j))
            ⊎ (now_target o'' j ≡ now_target o' j))
      → EndsAs (before ++ id ∷ ids) o (o'', raised)
  rollback-raised before ids id o o' o'' passed deployed either =
      broken_at before ids id o o'' passed (λ j differ. elim (either j) [
        | inl e ↦ ground (arith, e, differ, deployed j, contains-snoc j id before)
        | inr e ↦ ground (arith, e, differ, deployed j, contains-snoc j id before)
      ])

  pub fail_canary-Ends :
      (before ids : List String) (id : String) (o o' : Ota r)
      → Fails before id o
      → Deployed (before ++ id ∷ []) o o'
      → EndsAs (before ++ id ∷ ids) o (fail_canary r t payload others health_timeout firmware id o')
  unfolding fail_canary
  fail_canary-Ends before ids id o o' (passed, (w, at_check, failed)) deployed =
      and_then-lem r t payload others health_timeout firmware (EndsAs (before ++ id ∷ ids) o)
        (λ j. if id == j then none else now_target o' j) o' _ _
        (rollback_node-After r t payload others health_timeout firmware laws o' id)
        (λ o'' back.
          stopped before id ids w refl passed at_check failed
            (rolled_back before id o o' o'' deployed back))
        (λ o'' either. rollback-raised before ids id o o' o'' passed deployed either)

  Deployed-next :
      (before : List String) (id : String) (o o' o'' : Ota r)
      → Deployed before o o'
      → ((j : String) → now_target o'' j ≡ (if id == j then some firmware else now_target o' j))
      → Deployed (before ++ id ∷ []) o o''
  Deployed-next before id o o' o'' deployed updated j =
      ground (arith, updated j, deployed j, contains-snoc j id before)

  -- The update of one node and its check, with what follows either answer.
  pub step-Ends :
      (before ids : List String) (id : String) (o o' : Ota r)
      (passes fails : Ota r → Ota r × Outcome)
      → HasPassed o before
      → Deployed before o o'
      → ((w : Ota r)
          → HasPassed o (before ++ id ∷ [])
          → Deployed (before ++ id ∷ []) o w
          → EndsAs ((before ++ id ∷ []) ++ ids) o (passes w))
      → ((w : Ota r)
          → Fails before id o
          → Deployed (before ++ id ∷ []) o w
          → EndsAs (before ++ id ∷ ids) o (fails w))
      → EndsAs (before ++ id ∷ ids) o (
          and_then r t payload others
            (update_node r t payload others o' id firmware)
            (λ w. check_health r t payload others health_timeout firmware w id passes fails))
  step-Ends before ids id o o' passes fails passed deployed good bad =
      and_then-lem r t payload others health_timeout firmware (EndsAs (before ++ id ∷ ids) o)
        (λ j. if id == j then some firmware else now_target o' j) o' _ _
        (update_node-After r t payload others health_timeout firmware laws o' id)
        (λ w updated.
          let at_check : Deployed (before ++ id ∷ []) o w =
            Deployed-next before id o o' w deployed updated in
          check_health-lem r t payload others health_timeout firmware
            (EndsAs (before ++ id ∷ ids) o) w id passes fails
            (λ w' e same healthy.
              subst (λ (l : List String). EndsAs l o (passes w'))
                (append_assoc before (id ∷ []) ids)
                (good w' (further before id w passed at_check healthy) (λ j. same j ∙ at_check j)))
            (λ w' same ill. bad w' (passed, (w, at_check, ill)) (λ j. same j ∙ at_check j)))
        (λ w either. broken_at before ids id o w passed (λ j differ. elim (either j) [
          | inl e ↦ ground (arith, e, differ, deployed j)
          | inr e ↦ ground (arith, e, deployed j)
        ]))

  pub canary_loop-Ends :
      (before ids : List String) (o o' : Ota r) (results : Dict String String)
      → HasPassed o before
      → Deployed before o o'
      → EndsAs
          (before ++ ids)
          o
          (canary_loop r t payload others health_timeout firmware o' results ids)
  unfolding canary_loop
  canary_loop-Ends before [] o o' results passed deployed =
      subst (λ (l : List String). EndsAs l o (o', completed results)) (sym (append-nil before))
        (all_done results passed deployed)
  canary_loop-Ends before (id ∷ ids) o o' results passed deployed =
      step-Ends before ids id o o' _ _ passed deployed
        (λ w passed' deployed'.
          canary_loop-Ends (before ++ id ∷ []) ids o w (insert id "updated" results) passed'
            deployed')
        (λ w fails deployed'. fail_canary-Ends before ids id o w fails deployed')

  pub finish-Ends :
      (event : String) (ids : List String) (o : Ota r) (p : Ota r × Outcome)
      → EndsAs ids o p
      → EndsAs ids o (finish r t payload others health_timeout firmware event p)
  unfolding finish
  finish-Ends event ids o (o', completed results) (all_done _ passed deployed) =
      and_then-lem r t payload others health_timeout firmware (EndsAs ids o) (now_target o') o' _ _
        (record_ota_event-After r t payload others health_timeout firmware laws o' event [])
        (λ o'' same. all_done results passed (λ j. same j ∙ deployed j))
        (λ o'' either.
          subst (λ (l : List String). EndsAs l o (o'', raised)) (append-nil ids)
            (broken_after ids [] o o'' passed
              (λ j. elim (either j) [ inl e ↦ e ∙ deployed j | inr e ↦ e ∙ deployed j ])))
  finish-Ends event ids o (o', unhealthy id) e = e
  finish-Ends event ids o (o', raised) e = e
  finish-Ends event ids o (o', stuck) e = e

  -- The first request of a rollout, which is about no node.
  pub begin-Ends :
      (event : String) (listed ids : List String) (o : Ota r) (rest : Ota r → Ota r × Outcome)
      → ((w : Ota r) → Deployed [] o w → EndsAs ids o (rest w))
      → EndsAs ids o (
          and_then r t payload others
            (record_ota_event r t payload others o firmware event listed)
            rest)
  unfolding contains
  begin-Ends event listed ids o rest next =
      and_then-lem r t payload others health_timeout firmware (EndsAs ids o) (now_target o) o _ rest
        (record_ota_event-After r t payload others health_timeout firmware laws o event listed)
        (λ w same. next w same)
        (λ w either.
          broken_after [] ids o w nobody (λ j. elim (either j) [ inl e ↦ e | inr e ↦ e ]))
