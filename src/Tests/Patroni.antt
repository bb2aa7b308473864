-- ===== src/Tests/Patroni.antt =====
-- A round of the replication settings over a Patroni that keeps one document.
use postgreslet.Prelude.{
  ℕ, zero, suc, ◌≡◌, refl, ap, sym, inl, Bool, false, Option, none, some, List, [], ◌∷◌, arith,
  nat_eq, text_eq, ◌↔◌,
}
use postgreslet.Text.{Text, codes, keep_alnum, to_lower}
use postgreslet.Cluster.{Result, ok, err, Client}
use postgreslet.Cluster.Memory.{MemoryError, not_found, memory}
use postgreslet.Postgres.Model.{Postgres, is_replication_primary_or_standalone}
use postgreslet.Postgres.Names.{
  to_peripheral_resource_name, to_peripheral_resource_namespace, generate_team_id,
  generate_database_name,
}
use postgreslet.Replication.Settings.{
  PatroniConfig, PatroniStandbyCluster, up_to_date, verdict, request_config,
}
use postgreslet.Replication.Settings.Laws.{Agree, verdict-up_to_date}
use postgreslet.Replication.{
  Patroni, PatroniError, missing_application_name, cluster_error, fetch_standby_name, resolve_name,
  http_patch_patroni, check_and_update_replication, all_done,
}
use postgreslet.Replication.Convergence.{IsPatroni, check_and_update-converges}
use postgreslet.Replication.Standby.{Finds, check_and_update-standby}
use postgreslet.Tests.Data.{primary_shop, standby_shop, connection, standby_connection}

-- The resources of the control plane, and the document that Patroni keeps.
abbrev World : Type 0
World = List Postgres × Text

objects : Client (List Postgres) MemoryError Postgres
objects = memory (λ p. record { namespace = p.namespace; name = p.name }) (λ p. [])

-- A text, ended by 0, before what follows.
write_text : Text → Text → Text
write_text [] rest = 0 ∷ rest
write_text (c ∷ t) rest = suc c ∷ write_text t rest

read_text : Text → Text × Text
read_text [] = ([], [])
read_text (zero ∷ rest) = ([], rest)
read_text (suc c ∷ rest) = let (t, rest') = read_text rest in (c ∷ t, rest')

read-write_text : (t rest : Text) → read_text (write_text t rest) ≡ (t, rest)
unfolding read_text write_text
read-write_text [] rest = refl
read-write_text (c ∷ t) rest = rw (read-write_text t rest) refl

-- A format for the settings that the program writes. Other settings are refused.
write_cluster : PatroniStandbyCluster → Result MemoryError Text
write_cluster cluster = elim cluster.create_replica_methods [
  | some (method ∷ []) ↦
      ok (2 ∷ cluster.port ∷ write_text method (write_text cluster.host cluster.application_name))
  | _ ↦ err not_found
]

write_config : PatroniConfig → Result MemoryError Text
write_config config = elim config.standby_cluster [
  | none ↦ elim config.synchronous_nodes_additional [
    | none ↦ ok (0 ∷ [])
    | some name ↦ ok (1 ∷ name)
  ]
  | some cluster ↦ elim config.synchronous_nodes_additional [
    | none ↦ write_cluster cluster
    | some _ ↦ err not_found
  ]
]

read_cluster : ℕ → Text → PatroniConfig
read_cluster port text =
    let (method, rest) = read_text text in
    let (host, application_name) = read_text rest in
    record {
      standby_cluster = some (record {
        create_replica_methods = some (method ∷ []);
        host = host;
        port = port;
        application_name = application_name;
      });
      synchronous_nodes_additional = none;
    }

read_config : Text → Result MemoryError PatroniConfig
read_config [] = err not_found
read_config (zero ∷ _) = ok (record { standby_cluster = none; synchronous_nodes_additional = none })
read_config (suc zero ∷ name) =
    ok (record { standby_cluster = none; synchronous_nodes_additional = some name })
read_config (suc (suc _) ∷ []) = err not_found
read_config (suc (suc _) ∷ port ∷ text) = ok (read_cluster port text)

ok_injective : {a b : Text} → ◌≡◌ {A = Result MemoryError Text} (ok a) (ok b) → a ≡ b
ok_injective e = cc

read-write_cluster :
    (methods : Option (List Text)) (host : Text) (port : ℕ) (application_name body : Text)
    → write_cluster (record {
      create_replica_methods = methods;
      host = host;
      port = port;
      application_name = application_name;
    })
      ≡ ok body
    → read_config body
      ≡ ok (record {
        standby_cluster = some (record {
          create_replica_methods = methods;
          host = host;
          port = port;
          application_name = application_name;
        });
        synchronous_nodes_additional = none;
      })
unfolding write_cluster read_config read_cluster
read-write_cluster none host port application_name body h = ground arith
read-write_cluster (some []) host port application_name body h = ground arith
read-write_cluster (some (m ∷ n ∷ ms)) host port application_name body h = ground arith
read-write_cluster (some (m ∷ [])) host port application_name body h = rw (← ok_injective h) (
    rw (read-write_text m (write_text host application_name))
      (rw (read-write_text host application_name) refl))

read-write_parts :
    (cluster : Option PatroniStandbyCluster) (names : Option Text) (body : Text)
    → write_config (record { standby_cluster = cluster; synchronous_nodes_additional = names })
      ≡ ok body
    → read_config body
      ≡ ok (record { standby_cluster = cluster; synchronous_nodes_additional = names })
unfolding write_config read_config
read-write_parts none none body h = rw (← ok_injective h) refl
read-write_parts none (some name) body h = rw (← ok_injective h) refl
read-write_parts (some cluster) none body h =
    read-write_cluster cluster.create_replica_methods cluster.host cluster.port
      cluster.application_name body h
read-write_parts (some cluster) (some name) body h = ground arith

patroni : Patroni World MemoryError
unfolding write_config read_config write_cluster read_cluster write_text read_text
patroni = record {
  leader_pods = λ _ _. ok (codes "10.0.0.5" ∷ []);
  spilo_pods = λ _ _. ok (codes "10.0.0.5" ∷ []);
  marshal = write_config;
  unmarshal = read_config;
  get_body = λ _ w. ok w.1;
  send_patch = λ _ body w. (ok 200, (w.0, body));
}

control : Client World MemoryError Postgres
unfolding memory
control = record {
  key_of = λ p. record { namespace = p.namespace; name = p.name };
  labels_of = λ p. [];
  get = λ k w. objects.get k w.0;
  list_all = λ labels w. objects.list_all labels w.0;
  create = λ o w. let (r, ps) = objects.create o w.0 in (r, (ps, w.1));
  update = λ o w. let (r, ps) = objects.update o w.0 in (r, (ps, w.1));
  delete = λ k w. let (r, ps) = objects.delete k w.0 in (r, (ps, w.1));
  is_not_found = objects.is_not_found;
}

abbrev stored : World → Result MemoryError Text
stored w = ok w.1

IsPatroni-lem : IsPatroni control patroni
unfolding control patroni
IsPatroni-lem = record {
  get-patch = λ url body config code marshalled sent success. (
    body,
    sym (ap (λ (r : Result MemoryError ℕ × World). stored r.1) sent),
    read-write_parts config.standby_cluster config.synchronous_nodes_additional body marshalled,
  );
  leaders-patch = λ url body ns w. refl;
  get-patch_control = λ url body k w. refl;
}

-- The other side of the connection, and a world that knows it.
abbrev other_shop : Postgres
other_shop = record primary_shop { name = codes "77aa" }

abbrev world : World
world = (other_shop ∷ [], [])

round : Postgres → World → Bool × Result (PatroniError MemoryError) (Unit {0}) × World
unfolding control patroni objects memory check_and_update_replication http_patch_patroni
    resolve_name fetch_standby_name request_config verdict is_replication_primary_or_standalone
    to_peripheral_resource_namespace to_peripheral_resource_name generate_team_id
    generate_database_name keep_alnum to_lower nat_eq text_eq
round p w = check_and_update_replication control patroni p w

-- A first round finds no settings that can be read, and returns the error; a PATCH is then read
-- back by the next round.
abbrev patched : World
patched = (http_patch_patroni control patroni primary_shop (codes "10.0.0.5") none world).1

rounds :
    ((round primary_shop world).1 ≡ err (cluster_error not_found))
    × (patched.1 ≡ 1 ∷ to_peripheral_resource_name other_shop)
unfolding round
rounds = (refl, refl)

check_and_update-converges_example :
    check_and_update_replication control patroni primary_shop patched ≡ (all_done, ok tt, patched)
unfolding round
check_and_update-converges_example =
    check_and_update-converges control patroni IsPatroni-lem primary_shop connection
      (codes "10.0.0.5") (to_peripheral_resource_name other_shop) none world refl refl refl
      (inl refl) refl

-- The PATCH of a standby returns the error, and is there for the next round, which returns none.
abbrev standby_patched : World
standby_patched = (http_patch_patroni control patroni standby_shop (codes "10.0.0.5") none world).1

standby_rounds :
    ((http_patch_patroni control patroni standby_shop (codes "10.0.0.5") none world).0
      ≡ err missing_application_name)
    × (round standby_shop standby_patched ≡ (all_done, ok tt, standby_patched))
unfolding round
standby_rounds = (refl, refl)

standby_role : is_replication_primary_or_standalone standby_shop ≡ false
unfolding round
standby_role = refl

check_and_update-standby_example :
    Finds control patroni standby_shop standby_connection refl standby_role refl standby_patched
      standby_patched
unfolding check_and_update_replication round
check_and_update-standby_example =
    check_and_update-standby control patroni standby_shop standby_connection refl standby_role refl
      standby_patched standby_patched all_done standby_rounds.1

verdict-up_to_date_example :
    (verdict primary_shop connection (some (codes "abc")) (request_config primary_shop none)
      ≡ up_to_date)
    ↔ Agree (request_config primary_shop none) (request_config primary_shop (some (codes "abc")))
verdict-up_to_date_example =
    verdict-up_to_date primary_shop connection refl (codes "abc") (request_config primary_shop none)
