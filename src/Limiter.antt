-- ===== src/Limiter.antt =====
-- The fixed-window limiters of internal/http/security.go (`ipRateLimiter`) and of
-- internal/admin/auth.go (`loginLimiter`). A time is a number of nanoseconds since the epoch, later
-- than Go's zero time. A Go map is an association list with one entry for a key. Each `allow` holds
-- the mutex from its sweep to its answer, so a call is one step.
pub mod Table
pub mod Counters
pub mod Grants
use ai_social_publisher.Common.{
  ℕ, ◌+◌, ◌*◌, String, Bool, true, false, ◌||◌, not, Option, none, some, List, [], ◌∷◌, ltb, leb,
  str_eq, is_some, if◌then◌else◌, filter, length,
}

-- What the keys use of the package `net`: `SplitHostPort` (the host), `ParseIP`, `IP.To4`,
-- `IP.Mask` with a /64 and `IP.String`.
pub record Net (Ip : Type 0) : Type 0 where
  pub split_host_port : String → Option String
  pub parse_ip : String → Option Ip
  pub to4 : Ip → Option Ip
  pub mask64 : Ip → Ip
  pub ip_string : Ip → String

-- `rateWindow` and `loginWindow`
pub record Window : Type 0 where
  pub started : ℕ
  pub count : ℕ

abbrev pub Clients : Type 0
Clients = List (String × Window)

-- `ipRateLimiter`; `none` is the zero time.
pub record IpRateLimiter : Type 0 where
  pub limit : ℕ
  pub window : ℕ
  pub clients : Clients
  pub last_sweep : Option ℕ

-- `maxTrackedClients` and `maxTrackedLoginClients`
abbrev pub max_tracked_clients : ℕ
max_tracked_clients = 50000

-- `newIPRateLimiter`
abbrev pub new_ip_rate_limiter : (limit window : ℕ) → IpRateLimiter
new_ip_rate_limiter limit window = record {
  limit = limit;
  window = window;
  clients = [];
  last_sweep = none;
}

abbrev pub host_of : String → Option String → String
host_of remote none = remote
host_of remote (some host) = host

abbrev pub or_prefix : {Ip : Type 0} → Net Ip → Ip → Option Ip → String
or_prefix net ip none = net.ip_string (net.mask64 ip)
or_prefix net ip (some v4) = net.ip_string v4

abbrev pub ip_key : {Ip : Type 0} → Net Ip → String → Option Ip → String
ip_key net host none = host
ip_key net host (some ip) = or_prefix net ip (net.to4 ip)

-- `rateLimitKey` and `loginLimitKey`
unfoldable pub rate_limit_key : {Ip : Type 0} → Net Ip → String → String
rate_limit_key net remote =
    let host = host_of remote (net.split_host_port remote) in ip_key net host (net.parse_ip host)

-- `now.Sub(started) >= window`; a clock that has gone back gives a negative difference.
abbrev pub expired : (window now started : ℕ) → Bool
expired window now started = leb (started + window) now

abbrev pub due : (window now : ℕ) → Option ℕ → Bool
due window now none = true
due window now (some last) = expired window now last

-- `clients[key]`
unfoldable pub find_client : String → Clients → Option Window
find_client key [] = none
find_client key ((k, w) ∷ rest) =
    let found = find_client key rest in if str_eq k key then some w else found

-- `clients[key] = w`
unfoldable pub put_client : String → Window → Clients → Clients
put_client key w [] = (key, w) ∷ []
put_client key w ((k, v) ∷ rest) =
    let others = put_client key w rest in if str_eq k key then (k, w) ∷ rest else (k, v) ∷ others

-- The sweep: the expired windows are deleted.
unfoldable pub sweep : (window now : ℕ) → Clients → Clients
sweep window now clients =
    filter (λ (e : String × Window). not (expired window now e.1.started)) clients

-- The client's window, or a new one: a client that is not in the map has the zero window.
abbrev pub current : (window now : ℕ) → Option Window → Window
current window now none = record { started = now; count = 0 }
current window now (some w) =
    if expired window now w.started then record { started = now; count = 0 } else w

abbrev pub counted : Window → Window
counted w = record w { count = w.count + 1 }

-- The map after the sweep that may be due, and after one more request of a key.
unfoldable pub swept : (window now : ℕ) → Option ℕ → Clients → Clients
unfolding sweep
swept window now last clients = if due window now last then sweep window now clients else clients

unfoldable pub tracked_in : String → Window → Clients → Clients
unfolding find_client put_client
tracked_in key w clients =
    if is_some (find_client key clients) || ltb (length clients) max_tracked_clients
    then put_client key w clients
    else clients

-- `ipRateLimiter.allow`, of the client's key
unfoldable pub allow_key : String → (now : ℕ) → IpRateLimiter → Bool × IpRateLimiter
unfolding swept tracked_in
allow_key key now l =
    let clients = swept l.window now l.last_sweep l.clients in
    let entry = counted (current l.window now (find_client key clients)) in
    (
      leb entry.count l.limit,
      record l {
        clients = tracked_in key entry clients;
        last_sweep = if due l.window now l.last_sweep then some now else l.last_sweep;
      },
    )

-- `ipRateLimiter.allow`
unfoldable pub allow :
    {Ip : Type 0} → Net Ip → String → (now : ℕ) → IpRateLimiter → Bool × IpRateLimiter
unfolding rate_limit_key allow_key
allow net remote now l = allow_key (rate_limit_key net remote) now l

-- `loginLimiter`
pub record LoginLimiter : Type 0 where
  pub clients : Clients
  pub last_sweep : Option ℕ

-- `time.Minute`
abbrev pub minute : ℕ
minute = 60 * 1000000000

-- `loginLimiter.allow`
unfoldable pub login_allow :
    {Ip : Type 0} → Net Ip → String → (now : ℕ) → LoginLimiter → Bool × LoginLimiter
unfolding rate_limit_key swept tracked_in
login_allow net remote now l =
    let key = rate_limit_key net remote in
    let clients = swept minute now l.last_sweep l.clients in
    let entry = counted (current minute now (find_client key clients)) in
    (
      leb entry.count 5,
      record {
        clients = tracked_in key entry clients;
        last_sweep = if due minute now l.last_sweep then some now else l.last_sweep;
      },
    )

-- Requests (a key and a time) one after another: the answers, and the limiter at the end.
unfoldable pub serve : List (String × ℕ) → IpRateLimiter → List Bool × IpRateLimiter
unfolding allow_key
serve [] l = ([], l)
serve ((key, now) ∷ rest) l =
    let first = allow_key key now l in
    let others = serve rest first.1 in (first.0 ∷ others.0, others.1)

-- `newLoginLimiter`
abbrev pub new_login_limiter : LoginLimiter
new_login_limiter = record { clients = []; last_sweep = none }

-- Attempts to log in, one after another.
unfoldable pub login_serve :
    {Ip : Type 0} → Net Ip → List (String × ℕ) → LoginLimiter → List Bool × LoginLimiter
unfolding login_allow
login_serve net [] l = ([], l)
login_serve net ((remote, now) ∷ rest) l =
    let first = login_allow net remote now l in
    let others = login_serve net rest first.1 in (first.0 ∷ others.0, others.1)
