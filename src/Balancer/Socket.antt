-- ===== src/Balancer/Socket.antt =====
-- `nextFreeSocket`: the ip that is in use, and the next free port of the configured range.
use postgreslet.Prelude.{
  ℕ, zero, suc, ◌-◌, Bool, List, [], ◌∷◌, ◌=?◌, contains, nat_eq, text_eq, if◌then◌else◌,
}
use postgreslet.Prelude.Int32.{add_int32, biased, lt_int32}
use postgreslet.Text.{Text}
use postgreslet.Cluster.{Result, ok, err, Client}
use postgreslet.Postgres.Services.{Service, svc_load_balancer_label}

pub record Options : Type 0 where
  pub lb_ip : Text
  -- `int32`, as bit patterns.
  pub port_range_start : ℕ
  pub port_range_size : ℕ
  pub enable_standby_leader_selector : Bool
  pub enable_legacy_standby_selector : Bool
  pub standby_clusters_source_ranges : List Text
  pub enable_lb_source_ranges : Bool
  pub enable_force_shared_ip : Bool

-- The errors of the manager, with what they wrap.
pub data BalancerError (E : Type 0) : Type 0 where
  fetch_failed : E → BalancerError E
  list_failed : E → BalancerError E
  create_failed : E → BalancerError E
  update_failed : E → BalancerError E
  no_free_port : BalancerError E
  -- A search that goes on; `Balancer.Search` proves that there is none.
  does_not_end : BalancerError E
  free_port_failed : BalancerError E → BalancerError E
  shared_failed : BalancerError E → BalancerError E
  dedicated_failed : BalancerError E → BalancerError E
  both_failed : BalancerError E → BalancerError E → BalancerError E

-- The ports in use: the first one of every service that has one.
unfoldable pub ports_in_use : List Service → List ℕ
ports_in_use [] = []
ports_in_use (svc ∷ rest) = elim svc.spec.ports [
  | [] ↦ ports_in_use rest
  | port ∷ _ ↦ port.port ∷ ports_in_use rest
]

-- The ip of the last service that has one.
unfoldable pub last_lb_ip : Text → List Service → Text
last_lb_ip ip [] = ip
last_lb_ip ip (svc ∷ rest) =
    last_lb_ip (if svc.spec.load_balancer_ip =? [] then ip else svc.spec.load_balancer_ip) rest

-- How the search for a port ends. `out_of_fuel` stands for a loop that goes on.
pub data Search : Type 0 where
  found : ℕ → Search
  exhausted : Search
  out_of_fuel : Search

-- `for port := start; port < end; port++`
unfoldable pub search_port : ℕ → ℕ → ℕ → List ℕ → Search
search_port zero port end used = out_of_fuel
search_port (suc fuel) port end used =
    let next = search_port fuel (add_int32 port 1) end used in
    if lt_int32 port end then (if contains used port then next else found port) else exhausted

-- One round for each port of the range, and one for the test that ends the loop.
unfoldable pub free_port : ℕ → ℕ → List ℕ → Search
unfolding search_port
free_port start size used =
    let end = add_int32 start size in search_port (suc (biased end - biased start)) start end used

abbrev pub of_search : {E : Type 0} → Text → Search → Result (BalancerError E) (Text × ℕ)
of_search ip (found port) = ok (ip, port)
of_search ip exhausted = err no_free_port
of_search ip out_of_fuel = err does_not_end

module _ {W E : Type 0} (client : Client W E Service) (options : Options) where
  -- The socket for the services that are listed.
  abbrev pub socket_among : List Service → Result (BalancerError E) (Text × ℕ)
  socket_among [] = ok ([], options.port_range_start)
  socket_among (svc ∷ rest) =
      of_search (last_lb_ip [] (svc ∷ rest))
        (free_port options.port_range_start options.port_range_size (ports_in_use (svc ∷ rest)))

  unfoldable pub next_free_socket : W → Result (BalancerError E) (Text × ℕ)
  unfolding free_port ports_in_use last_lb_ip
  next_free_socket w = elim (client.list_all svc_load_balancer_label w) [
    | err e ↦ err (list_failed e)
    | ok services ↦ socket_among services
  ]
