-- ===== src/Icmpd/Clients.antt =====
-- `readable_listen` and `readable_conn` of unpv1e3/icmpd.
pub mod Laws
use unix_network_programming.Base.{
  ℕ, zero, suc, ◌+◌, List, [], ◌∷◌, ◌++◌, Bool, true, false, Option, none, some, ◌==◌,
  if◌then◌else◌,
}
use unix_network_programming.Gai.{af_inet, af_inet6}
use unix_network_programming.Icmpd.{
  Client, Effect, tell, close, State, Outcome, goes, exits, one_less, with_fd, without_fd, larger,
}

-- The first place that is free takes the descriptor; its family and port stay as they are.
abbrev pub behind : Client → Option (List Client × ℕ) → Option (List Client × ℕ)
behind c none = none
behind c (some r) = some (c ∷ r.0, suc r.1)

abbrev pub is_free : Option ℕ → Bool
is_free none = true
is_free (some fd) = false

unfoldable pub place : ℕ → List Client → Option (List Client × ℕ)
place fd [] = none
place fd (c ∷ cs) =
    let rest = behind c (place fd cs) in
    if is_free c.connfd then some (record c { connfd = some fd } ∷ cs, 0) else rest

abbrev pub placed : ℕ → State → Option (List Client × ℕ) → State
placed connfd s none = one_less (record s { effects = s.effects ++ close connfd ∷ [] })
placed connfd s (some r) = one_less (record s {
  client = r.0;
  used = larger (suc r.1) s.used;
  allset = with_fd connfd s.allset;
  maxfd = larger connfd s.maxfd;
})

-- `connfd` is what Accept returns.
unfoldable pub readable_listen : ℕ → State → State
unfolding place
readable_listen connfd s = placed connfd s (place connfd s.client)

-- What a client sends: nothing, as at its end, or a byte; and with it a descriptor, or none.
pub record Sent : Type 0 where
  pub has_data : Bool
  pub recvfd : Option ℕ

-- getsockname on that descriptor: the family, and the port that sock_get_port finds; and what
-- sock_bind_wild returns, where `none` is -1.
pub record Socket : Type 0 where
  pub name : Option (ℕ × Option ℕ)
  pub bound : Option ℕ

abbrev pub set_client : ℕ → (Client → Client) → List Client → List Client
set_client i f [] = []
set_client zero f (c ∷ cs) = f c ∷ cs
set_client (suc i) f (c ∷ cs) = c ∷ set_client i f cs

abbrev pub close_received : Option ℕ → List Effect
close_received none = []
close_received (some fd) = close fd ∷ []

-- clientdone: and clienterr:
pub client_done : ℕ → ℕ → Option ℕ → State → State
client_done i unixfd recvfd s = one_less (record s {
  effects = s.effects ++ close unixfd ∷ close_received recvfd;
  allset = without_fd unixfd s.allset;
  client = set_client i (λ c. record c { connfd = none }) s.client;
})

pub client_err : ℕ → ℕ → Option ℕ → State → State
unfolding client_done
client_err i unixfd recvfd s =
    client_done i unixfd recvfd (record s { effects = s.effects ++ tell unixfd false ∷ [] })

-- The client is registered, and told so.
pub registered : ℕ → ℕ → ℕ → ℕ → Option ℕ → State → State
registered i unixfd recvfd family lport s = one_less (record s {
  client = set_client i (λ c. record c { family = family; lport = lport }) s.client;
  effects = s.effects ++ tell unixfd true ∷ close recvfd ∷ [];
})

-- The family and the port are set although the port cannot be bound.
pub bind_failed : ℕ → ℕ → ℕ → ℕ → Option ℕ → State → State
unfolding client_err
bind_failed i unixfd recvfd family lport s =
    client_err i unixfd (some recvfd) (record s {
      client = set_client i (λ c. record c { family = family; lport = lport }) s.client;
    })

-- The port of the name, or an ephemeral one where it is 0.
pub with_port : ℕ → ℕ → ℕ → ℕ → Option ℕ → Option ℕ → State → State
unfolding registered bind_failed
with_port i unixfd recvfd family none bound s = registered i unixfd recvfd family none s
with_port i unixfd recvfd family (some (suc port)) bound s =
    registered i unixfd recvfd family (some (suc port)) s
with_port i unixfd recvfd family (some zero) none s = bind_failed i unixfd recvfd family none s
with_port i unixfd recvfd family (some zero) (some zero) s =
    bind_failed i unixfd recvfd family (some zero) s
with_port i unixfd recvfd family (some zero) (some (suc port)) s =
    registered i unixfd recvfd family (some (suc port)) s

pub with_name : ℕ → ℕ → ℕ → Option (ℕ × Option ℕ) → Option ℕ → State → State
unfolding with_port client_err
with_name i unixfd recvfd none bound s = client_err i unixfd (some recvfd) s
with_name i unixfd recvfd (some (family, port)) bound s =
    with_port i unixfd recvfd family port bound s

-- The descriptor that was received.
pub with_descriptor : ℕ → ℕ → Option ℕ → Socket → State → State
unfolding with_name client_err
with_descriptor i unixfd none k s = client_err i unixfd none s
with_descriptor i unixfd (some recvfd) k s = with_name i unixfd recvfd k.name k.bound s

-- For the client at the place `i`, with the descriptor `unixfd`.
unfoldable pub readable_conn : ℕ → ℕ → Sent → Socket → State → State
unfolding with_descriptor client_done
readable_conn i unixfd sent k s =
    if sent.has_data
    then with_descriptor i unixfd sent.recvfd k s
    else client_done i unixfd sent.recvfd s
