-- ===== src/Replication/Convergence.antt =====
-- A PATCH that succeeds brings the settings up to date, over a Patroni that keeps what it is sent.
use postgreslet.Prelude.{
  ℕ, ◌/◌, ◌≡◌, ◌⊎◌, refl, ap, ◌∙◌, false, Option, none, some, List, [], ◌∷◌, arith, ◌=?◌, text_eq,
  Bool-cases, inl, inr,
}
use postgreslet.Text.{Text}
use postgreslet.Cluster.{Result, ok, err, NamespacedName, Client}
use postgreslet.Postgres.Model.{Postgres, PostgresConnection}
use postgreslet.Postgres.Names.{to_peripheral_resource_namespace}
use postgreslet.Replication.Settings.{PatroniConfig, verdict, request_config}
use postgreslet.Replication.Settings.Laws.{Agree, verdict-up_to_date}
use postgreslet.Replication.{
  Patroni, PatroniError, config_url, empty_pod_ip, fetch_standby_name, resolve_name,
  http_patch_patroni, http_get_patroni_config, check_and_update_replication, with_leaders,
  with_leader, compare_settings, act, send, answer, all_done,
}

-- What Patroni documents: a PATCH that is answered by a code of success is read back by a GET. And
-- what a round rests on: the PATCH moves no leader and changes no resource of the control plane.
pub record IsPatroni {W E : Type 0} (control : Client W E Postgres) (patroni : Patroni W E)
    : Type 0 where
  pub get-patch :
      (url body : Text) (config : PatroniConfig) (code : ℕ) {w w' : W}
      → patroni.marshal config ≡ ok body
      → patroni.send_patch url body w ≡ (ok code, w')
      → code / 100 ≡ 2
      → (answered : Text) × (patroni.get_body url w' ≡ ok answered)
        × (patroni.unmarshal answered ≡ ok config)
  pub leaders-patch :
      (url body ns : Text) (w : W)
      → patroni.leader_pods ns (patroni.send_patch url body w).1 ≡ patroni.leader_pods ns w
  pub get-patch_control :
      (url body : Text) (k : NamespacedName) (w : W)
      → control.get k (patroni.send_patch url body w).1 ≡ control.get k w

abbrev replied_at : {W E : Type 0} → Result E ℕ → W → Result E ℕ × W
replied_at r w = (r, w)

empty_refused :
    {W E : Type 0} (w : W) {w' : W}
    → ◌≡◌ {A = Result (PatroniError E) (Unit {0}) × W} (err empty_pod_ip, w) (ok tt, w')
    → ⊥
empty_refused w h = ground arith

module _ {W E : Type 0} (control : Client W E Postgres) (patroni : Patroni W E) where
  -- What is known of a PATCH that returns no error.
  abbrev Patched : Postgres → Text → Option Text → W → W → Type 0
  Patched p pod_ip given w w' =
      (body : Text) × (code : ℕ) × (patroni.marshal
          (request_config p (resolve_name control patroni p given w))
        ≡ ok body)
      × (patroni.send_patch (config_url pod_ip) body w ≡ (ok code, w'))
      × (code / 100 ≡ 2)
      × ((pod_ip =? []) ≡ false)

  answer-ok :
      (p : Postgres) (name : Option Text) (r : Result E ℕ)
      → answer control patroni p name r ≡ ok tt
      → (code : ℕ) × (r ≡ ok code) × (code / 100 ≡ 2)
  unfolding answer
  answer-ok p name (err e) h = ground arith
  answer-ok p name (ok code) h = (code, refl, ground arith)

  send-ok :
      (p : Postgres) (name : Option Text) (pod_ip : Text) (r : Result E Text) (w : W) {w' : W}
      → send control patroni p name pod_ip r w ≡ (ok tt, w')
      → (body : Text) × (code : ℕ) × (r ≡ ok body)
        × (patroni.send_patch (config_url pod_ip) body w ≡ (ok code, w'))
        × (code / 100 ≡ 2)
  unfolding send
  send-ok p name pod_ip (err e) w h = ground arith
  send-ok p name pod_ip (ok body) w {w'} h =
      let sent = patroni.send_patch (config_url pod_ip) body w in
      let (code, replied, success) =
        answer-ok p name sent.0 (ap (λ (r : Result (PatroniError E) (Unit {0}) × W). r.0) h) in
      (
        body,
        code,
        refl,
        ap (λ (r : Result E ℕ). replied_at r sent.1) replied
            ∙ ap (λ (v : W). replied_at (ok code) v)
                (ap (λ (r : Result (PatroniError E) (Unit {0}) × W). r.1) h),
        success,
      )

  http_patch_patroni-ok :
      (p : Postgres) (pod_ip : Text) (given : Option Text) (w : W) {w' : W}
      → http_patch_patroni control patroni p pod_ip given w ≡ (ok tt, w')
      → Patched p pod_ip given w w'
  unfolding http_patch_patroni
  http_patch_patroni-ok p pod_ip given w done = elim (Bool-cases (pod_ip =? [])) [
    | inl empty ↦ absurd (empty_refused w (rw empty at done))
    | inr filled ↦
        let name = resolve_name control patroni p given w in
        let (body, code, marshalled, sent, success) =
          send-ok p name pod_ip (patroni.marshal (request_config p name)) w (rw filled at done) in
        (body, code, marshalled, sent, success, filled)
  ]

request-Agree :
    (p : Postgres) (c : PostgresConnection) (name : Option Text)
    → p.spec.postgres_connection ≡ some c
    → Agree (request_config p name) (request_config p name)
unfolding request_config
request-Agree p c name connected = ground arith

-- What is sent does not depend on the name but for a synchronous primary.
request-resolved :
    {W E : Type 0} (control : Client W E Postgres) (patroni : Patroni W E) (p : Postgres)
    (c : PostgresConnection) (given : Option Text) (name : Text) (w : W)
    → p.spec.postgres_connection ≡ some c
    → fetch_standby_name control patroni p c w ≡ some name
    → (given ≡ none) ⊎ (given ≡ some name)
    → request_config p (resolve_name control patroni p given w) ≡ request_config p (some name)
unfolding request_config resolve_name
request-resolved control patroni p c none name w connected fetched h = ground arith
request-resolved control patroni p c (some g) name w connected fetched h = ground arith

module _ {W E : Type 0} (control : Client W E Postgres) (patroni : Patroni W E)
    (lawful : IsPatroni control patroni) where
  -- A round, once what it reads is known.
  round :
      (p : Postgres) (c : PostgresConnection) (leader_ip : Text) (name : Option Text)
      (config : PatroniConfig) (w : W)
      → patroni.leader_pods (to_peripheral_resource_namespace p) w ≡ ok (leader_ip ∷ [])
      → p.spec.postgres_connection ≡ some c
      → http_get_patroni_config control patroni leader_ip w ≡ ok config
      → fetch_standby_name control patroni p c w ≡ name
      → check_and_update_replication control patroni p w
        ≡ act control patroni p leader_ip (verdict p c name config) w
  unfolding check_and_update_replication
  round p c leader_ip name config w leader connected read fetched =
      ap (λ (r : Result E (List Text)). with_leaders control patroni p r w) leader
      ∙ ap (λ (o : Option PostgresConnection). with_leader control patroni p leader_ip o w)
          connected
      ∙ ap
          (λ (r : Result (PatroniError E) PatroniConfig).
            compare_settings control patroni p leader_ip c r w)
          read
      ∙ ap (λ (n : Option Text). act control patroni p leader_ip (verdict p c n config) w) fetched

  read_back :
      (pod_ip body answered : Text) (config : PatroniConfig) (w : W)
      → (pod_ip =? []) ≡ false
      → patroni.get_body (config_url pod_ip) w ≡ ok answered
      → patroni.unmarshal answered ≡ ok config
      → http_get_patroni_config control patroni pod_ip w ≡ ok config
  unfolding http_get_patroni_config
  read_back pod_ip body answered config w filled got read =
      rw (filled, http_get_patroni_config)
        (rw (got, http_get_patroni_config) (rw (read, http_get_patroni_config)))

  fetch-patched :
      (p : Postgres) (c : PostgresConnection) (url body : Text) (w : W)
      → fetch_standby_name control patroni p c (patroni.send_patch url body w).1
        ≡ fetch_standby_name control patroni p c w
  unfolding fetch_standby_name
  fetch-patched p c url body w = rw (lawful.get-patch_control, fetch_standby_name)

  -- Over a Patroni that keeps what it is sent: where the database has one leader and a connection
  -- whose other side can be fetched, a PATCH of the leader that returns no error, with no name or
  -- that of the other side, brings the settings up to date: the next round finds nothing to do,
  -- writes nothing and asks for no other round.
  pub check_and_update-converges :
      (p : Postgres) (c : PostgresConnection) (leader_ip name : Text) (given : Option Text) (w : W)
      {w' : W}
      → patroni.leader_pods (to_peripheral_resource_namespace p) w ≡ ok (leader_ip ∷ [])
      → p.spec.postgres_connection ≡ some c
      → fetch_standby_name control patroni p c w ≡ some name
      → (given ≡ none) ⊎ (given ≡ some name)
      → http_patch_patroni control patroni p leader_ip given w ≡ (ok tt, w')
      → check_and_update_replication control patroni p w' ≡ (all_done, ok tt, w')
  unfolding check_and_update_replication
  check_and_update-converges p c leader_ip name given w {w'} leader connected fetched known done =
      let (body, code, marshalled, sent, success, filled) =
        http_patch_patroni-ok control patroni p leader_ip given w done in
      let config = request_config p (some name) in
      let resolved = request-resolved control patroni p c given name w connected fetched known in
      let (answered, got, read) =
        lawful.get-patch (config_url leader_ip) body config code (rw resolved at marshalled) sent
          success in
      let moved : (patroni.send_patch (config_url leader_ip) body w).1 ≡ w' =
        ap (λ (r : Result E ℕ × W). r.1) sent in
      let same_leader =
        lawful.leaders-patch (config_url leader_ip) body (to_peripheral_resource_namespace p) w
        ∙ leader in
      let same_name = fetch-patched p c (config_url leader_ip) body w ∙ fetched in
      let accepted =
        (verdict-up_to_date p c connected name config).1
          (request-Agree p c (some name) connected) in
      round p c leader_ip (some name) config w' (rw moved at same_leader) connected
        (read_back leader_ip body answered config w' filled got read) (rw moved at same_name)
      ∙ rw accepted
