-- ===== src/Replication/Standby.antt =====
-- A standby whose connection asks for synchronous replication.
use postgreslet.Prelude.{
  ℕ, ◌/◌, ◌==◌, nat_eq, ◌≡◌, ◌≢◌, refl, sym, ap, ◌∙◌, Bool, true, false, Bool-cases, inl, inr, ◌⊎◌,
  Option, none, some, List, [], ◌∷◌, arith, ◌=?◌, text_eq,
}
use postgreslet.Text.{Text}
use postgreslet.Cluster.{Result, ok, err, Client}
use postgreslet.Postgres.Model.{Postgres, PostgresConnection, is_replication_primary_or_standalone}
use postgreslet.Postgres.Names.{to_peripheral_resource_namespace}
use postgreslet.Replication.Settings.{
  PatroniConfig, Verdict, up_to_date, wait, patch_with, verdict, request_config,
}
use postgreslet.Replication.Settings.Laws.{Agree, StandbyVerdict, verdict-standby}
use postgreslet.Replication.{
  Patroni, PatroniError, missing_application_name, fetch_standby_name, resolve_name, send, answer,
  check_name, http_patch_patroni, http_get_patroni_config, patch_all, patch_listed,
  update_on_all_pods, act, compare_settings, with_leader, with_leaders,
  check_and_update_replication,
}

module _ {W E : Type 0} (control : Client W E Postgres) (patroni : Patroni W E) (p : Postgres)
    (c : PostgresConnection) (connected : p.spec.postgres_connection ≡ some c)
    (standby : is_replication_primary_or_standalone p ≡ false)
    (synchronous : c.synchronous_replication ≡ true) where
  abbrev success : Result (PatroniError E) (Unit {0})
  success = ok tt

  resolve_name-standby : (w : W) → resolve_name control patroni p none w ≡ none
  unfolding resolve_name
  resolve_name-standby w = ground arith

  check_name-refused : check_name control patroni p none ≡ err missing_application_name
  unfolding check_name
  check_name-refused = ground arith

  answer-refused : (r : Result E ℕ) → answer control patroni p none r ≢ success
  unfolding answer
  answer-refused (err e) done = ground arith
  answer-refused (ok code) done =
      let refused = check_name-refused in
      elim (Bool-cases (code / 100 == 2)) [
        | inl accepted ↦ let wrong = rw (accepted, refused) at done in ground arith
        | inr other ↦ let wrong = rw other at done in ground arith
      ]

  send-refused :
      (pod_ip : Text) (body : Result E Text) (w : W)
      → (send control patroni p none pod_ip body w).0 ≢ success
  unfolding send
  send-refused pod_ip (err e) w done = ground arith
  send-refused pod_ip (ok body) w done = answer-refused _ done

  -- A PATCH without a name never returns without an error, whatever is answered.
  http_patch_patroni-refused :
      (pod_ip : Text) (w : W) → (http_patch_patroni control patroni p pod_ip none w).0 ≢ success
  unfolding http_patch_patroni
  http_patch_patroni-refused pod_ip w done = elim (Bool-cases (pod_ip =? [])) [
    | inl empty ↦ let wrong = rw empty at done in ground arith
    | inr filled ↦
        let unnamed = resolve_name-standby w in
        send-refused pod_ip (patroni.marshal (request_config p none)) w
          (rw (filled, unnamed) at done)
  ]

  patch_all-err :
      (pods : List Text) (e : PatroniError E) (w : W)
      → (patch_all control patroni p pods (err e) w).0 ≢ success
  unfolding patch_all
  patch_all-err [] e w done = ground arith
  patch_all-err (pod ∷ pods) e w done =
      let patched = http_patch_patroni control patroni p pod none w in
      go patched.0 patched.1 (λ e'. patch_all-err pods e' patched.1) done
    where
      go :
          (r : Result (PatroniError E) (Unit {0})) (v : W)
          → ((e' : PatroniError E) → (patch_all control patroni p pods (err e') v).0 ≢ success)
          → (patch_all control patroni p pods (elim r [ ok _ ↦ err e | err e' ↦ err e' ]) v).0
            ≢ success
      go (ok _) v later = later e
      go (err e') v later = later e'

  patch_listed-refused :
      (r : Result E (List Text)) (w : W) → (patch_listed control patroni p r w).0 ≢ success
  unfolding patch_listed patch_all
  patch_listed-refused (err e) w done = ground arith
  patch_listed-refused (ok []) w done = ground arith
  patch_listed-refused (ok (pod ∷ pods)) w done =
      let patched = http_patch_patroni control patroni p pod none w in
      go patched.0 patched.1 (http_patch_patroni-refused pod w) done
    where
      go :
          (r : Result (PatroniError E) (Unit {0})) (v : W)
          → r ≢ success
          → (patch_all control patroni p pods (elim r [ ok _ ↦ success | err e' ↦ err e' ]) v).0
            ≢ success
      go (ok tt) v refused = absurd (refused refl)
      go (err e') v refused = patch_all-err pods e' v

  -- What a round that returns no error has found, and its state.
  abbrev pub Finds : W → W → Type 0
  Finds w w' =
      (w' ≡ w)
      × ((leader_ip : Text) × (config : PatroniConfig) × (patroni.leader_pods
              (to_peripheral_resource_namespace p) w
            ≡ ok (leader_ip ∷ []))
          × (http_get_patroni_config control patroni leader_ip w ≡ ok config)
          × ((config.standby_cluster ≡ none) ⊎ Agree config (request_config p none)))

  after_verdict :
      (leader_ip : Text) (config : PatroniConfig) (v : Verdict) (w w' : W) (again : Bool)
      → StandbyVerdict p c connected config v
      → act control patroni p leader_ip v w ≡ (again, success, w')
      → (w' ≡ w) × ((config.standby_cluster ≡ none) ⊎ Agree config (request_config p none))
  unfolding act
  after_verdict leader_ip config up_to_date w w' again found done =
      (sym (ap (λ t. t.2) done), inr found)
  after_verdict leader_ip config wait w w' again found done = (sym (ap (λ t. t.2) done), inl found)
  after_verdict leader_ip config (patch_with none) w w' again found done =
      absurd (http_patch_patroni-refused leader_ip w (ap (λ t. t.1) done))
  after_verdict leader_ip config (patch_with (some name)) w w' again found done = ground arith

  after_settings :
      (leader_ip : Text) (r : Result (PatroniError E) PatroniConfig) (w w' : W) (again : Bool)
      → patroni.leader_pods (to_peripheral_resource_namespace p) w ≡ ok (leader_ip ∷ [])
      → http_get_patroni_config control patroni leader_ip w ≡ r
      → compare_settings control patroni p leader_ip c r w ≡ (again, success, w')
      → Finds w w'
  unfolding compare_settings
  after_settings leader_ip (err e) w w' again leader read done = ground arith
  after_settings leader_ip (ok config) w w' again leader read done =
      let name = fetch_standby_name control patroni p c w in
      let (same, found) =
        after_verdict leader_ip config (verdict p c name config) w w' again
          (verdict-standby p c connected name config standby) done in
      (same, (leader_ip, config, leader, read, found))

  after_leaders :
      (r : Result E (List Text)) (w w' : W) (again : Bool)
      → patroni.leader_pods (to_peripheral_resource_namespace p) w ≡ r
      → with_leaders control patroni p r w ≡ (again, success, w')
      → Finds w w'
  unfolding with_leaders with_leader update_on_all_pods
  after_leaders (err e) w w' again leader done = ground arith
  after_leaders (ok []) w w' again leader done = absurd (
      patch_listed-refused (patroni.spilo_pods (to_peripheral_resource_namespace p) w) w
        (ap (λ t. t.1) done))
  after_leaders (ok (leader_ip ∷ [])) w w' again leader done =
      after_settings leader_ip (http_get_patroni_config control patroni leader_ip w) w w' again
        leader refl
        (sym (
            ap (λ (o : Option PostgresConnection). with_leader control patroni p leader_ip o w)
              connected)
          ∙ done)
  after_leaders (ok (_ ∷ _ ∷ _)) w w' again leader done = absurd (
      patch_listed-refused (patroni.spilo_pods (to_peripheral_resource_namespace p) w) w
        (ap (λ t. t.1) done))

  -- For a standby whose connection says that the replication is synchronous, a round that returns
  -- no error has written nothing: it has found one leader, whose settings it could read, and these
  -- either have no part for a standby or agree already with those that the program would write. So
  -- no round that sends a PATCH to such a standby, to its leader or to all its pods, returns
  -- without an error, whatever Patroni answers.
  pub check_and_update-standby :
      (w w' : W) (again : Bool)
      → check_and_update_replication control patroni p w ≡ (again, ok tt, w')
      → Finds w w'
  unfolding check_and_update_replication
  check_and_update-standby w w' again done =
      after_leaders (patroni.leader_pods (to_peripheral_resource_namespace p) w) w w' again refl
        done
