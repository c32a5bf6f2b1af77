-- ===== src/Icmpd/Clients/Laws.antt =====
-- The table of clients when a client comes, registers and goes.
use unix_network_programming.Base.{
  ℕ, zero, suc, ◌≡◌, ◌<◌, ◌≤◌, refl, subst, sym, List, [], ◌∷◌, ◌++◌, Bool, true, false, Option,
  none, some, if◌then◌else◌, All, drop, arith, Bool-cases, inl, inr, get_elem?, then_branch,
  else_branch,
}
use unix_network_programming.Icmpd.{Client, State, tell, larger}
use unix_network_programming.Icmpd.Clients.{
  behind, is_free, place, placed, readable_listen, Sent, Socket, set_client, client_done,
  client_err, registered, bind_failed, with_port, with_name, with_descriptor, readable_conn,
}

-- No client stands behind the part of the table in use.
abbrev pub IsFree : Client → Type 0
IsFree c = is_free c.connfd ≡ true

abbrev pub Covers : ℕ → List Client → Type 0
Covers used cs = All IsFree (drop used cs)

abbrev pub IsCovered : State → Type 0
IsCovered s = Covers s.used s.client

Covers-more : (m n : ℕ) (cs : List Client) → n ≤ m → Covers n cs → Covers m cs
Covers-more zero zero cs l f = f
Covers-more (suc m) zero [] l f = f
Covers-more (suc m) zero (c ∷ cs) l (f, fs) = Covers-more m zero cs (omega arith) fs
Covers-more zero (suc n) cs l f = absurd (omega arith)
Covers-more (suc m) (suc n) [] l f = tt
Covers-more (suc m) (suc n) (c ∷ cs) l f = Covers-more m n cs (omega arith) f

-- What a new client changes: one place that was free, and of that only the descriptor.
abbrev pub Taken : ℕ → List Client → Option (List Client × ℕ) → Type 0
Taken fd cs none = Unit
Taken fd cs (some (cs', i)) =
    (c : Client) × (get_elem? cs i ≡ some c)
    × IsFree c
    × (get_elem? cs' i ≡ some (record c { connfd = some fd }))
    × ((m : ℕ) → i < m → Covers m cs → Covers m cs')

behind-Taken :
    (fd : ℕ) (c : Client) (cs : List Client) (o : Option (List Client × ℕ))
    → Taken fd cs o
    → Taken fd (c ∷ cs) (behind c o)
behind-Taken fd c cs none h = tt
behind-Taken fd c cs (some (cs', i)) (d, e, f, g, k) = (d, e, f, g, later)
  where
    later : (m : ℕ) → suc i < m → Covers m (c ∷ cs) → Covers m (c ∷ cs')
    later zero l h = absurd (omega arith)
    later (suc m) l h = k m (omega arith) h

place-Taken : (fd : ℕ) (cs : List Client) → Taken fd cs (place fd cs)
unfolding place
place-Taken fd [] = tt
place-Taken fd (c ∷ cs) = elim (Bool-cases (is_free c.connfd)) [
  | inl e ↦
      subst (Taken fd (c ∷ cs)) (sym (then_branch {b = is_free c.connfd} _ _ e))
        (c, refl, e, refl, first)
  | inr e ↦
      subst (Taken fd (c ∷ cs)) (sym (else_branch {b = is_free c.connfd} _ _ e))
        (behind-Taken fd c cs (place fd cs) (place-Taken fd cs))
]
  where
    first : (m : ℕ) → 0 < m → Covers m (c ∷ cs) → Covers m (record c { connfd = some fd } ∷ cs)
    first zero l h = absurd (omega arith)
    first (suc m) l h = h

larger_bounds : (a b : ℕ) → (a ≤ larger a b) × (b ≤ larger a b)
larger_bounds a b = (ground arith, ground arith)

placed-IsCovered :
    (connfd : ℕ) (s : State) (o : Option (List Client × ℕ))
    → Taken connfd s.client o
    → IsCovered s
    → IsCovered (placed connfd s o)
placed-IsCovered connfd s none h f = f
placed-IsCovered connfd s (some (cs, i)) (c, e, g, k, t) f =
    let (l, m) = larger_bounds (suc i) s.used in
    t (larger (suc i) s.used) l (Covers-more (larger (suc i) s.used) s.used s.client m f)

pub readable_listen-IsCovered :
    (connfd : ℕ) (s : State) → IsCovered s → IsCovered (readable_listen connfd s)
unfolding readable_listen
readable_listen-IsCovered connfd s f =
    placed-IsCovered connfd s (place connfd s.client) (place-Taken connfd s.client) f

-- A client that is accepted takes a free place, and with it the family and the port that the last
-- client of that place had registered.
pub place_inherits :
    (connfd : ℕ) (cs cs' : List Client) (i : ℕ)
    → place connfd cs ≡ some (cs', i)
    → (c : Client) × (get_elem? cs i ≡ some c)
      × IsFree c
      × (get_elem? cs' i ≡ some (record c { connfd = some connfd }))
place_inherits connfd cs cs' i h =
    let (c, e, f, g, k) = subst (Taken connfd cs) h (place-Taken connfd cs) in (c, e, f, g)

-- A change of one client that opens nothing.
Closes : (Client → Client) → Type 0
Closes f = (c : Client) → IsFree c → IsFree (f c)

set_client-Covers :
    (i used : ℕ) (f : Client → Client) (cs : List Client)
    → Closes f
    → Covers used cs
    → Covers used (set_client i f cs)
unfolding Closes
set_client-Covers i used f [] h k = k
set_client-Covers zero zero f (c ∷ cs) h (k, ks) = (h c k, ks)
set_client-Covers zero (suc used) f (c ∷ cs) h k = k
set_client-Covers (suc i) zero f (c ∷ cs) h (k, ks) = (k, set_client-Covers i zero f cs h ks)
set_client-Covers (suc i) (suc used) f (c ∷ cs) h k = set_client-Covers i used f cs h k

closed : (c : Client) → IsFree c → IsFree (record c { connfd = none })
closed c h = refl

client_done-IsCovered :
    (i unixfd : ℕ) (recvfd : Option ℕ) (s : State)
    → IsCovered s
    → IsCovered (client_done i unixfd recvfd s)
unfolding client_done Closes
client_done-IsCovered i unixfd recvfd s h = set_client-Covers i s.used _ s.client closed h

client_err-IsCovered :
    (i unixfd : ℕ) (recvfd : Option ℕ) (s : State)
    → IsCovered s
    → IsCovered (client_err i unixfd recvfd s)
unfolding client_err
client_err-IsCovered i unixfd recvfd s h =
    client_done-IsCovered i unixfd recvfd
      (record s { effects = s.effects ++ tell unixfd false ∷ [] }) h

registered-IsCovered :
    (i unixfd recvfd family : ℕ) (lport : Option ℕ) (s : State)
    → IsCovered s
    → IsCovered (registered i unixfd recvfd family lport s)
unfolding registered Closes
registered-IsCovered i unixfd recvfd family lport s h =
    set_client-Covers i s.used _ s.client (λ c f. f) h

bind_failed-IsCovered :
    (i unixfd recvfd family : ℕ) (lport : Option ℕ) (s : State)
    → IsCovered s
    → IsCovered (bind_failed i unixfd recvfd family lport s)
unfolding bind_failed Closes
bind_failed-IsCovered i unixfd recvfd family lport s h =
    client_err-IsCovered i unixfd (some recvfd)
      (record s {
        client = set_client i (λ c. record c { family = family; lport = lport }) s.client;
      })
      (set_client-Covers i s.used _ s.client (λ c f. f) h)

with_port-IsCovered :
    (i unixfd recvfd family : ℕ) (port bound : Option ℕ) (s : State)
    → IsCovered s
    → IsCovered (with_port i unixfd recvfd family port bound s)
unfolding with_port
with_port-IsCovered i unixfd recvfd family none bound s h =
    registered-IsCovered i unixfd recvfd family none s h
with_port-IsCovered i unixfd recvfd family (some (suc port)) bound s h =
    registered-IsCovered i unixfd recvfd family (some (suc port)) s h
with_port-IsCovered i unixfd recvfd family (some zero) none s h =
    bind_failed-IsCovered i unixfd recvfd family none s h
with_port-IsCovered i unixfd recvfd family (some zero) (some zero) s h =
    bind_failed-IsCovered i unixfd recvfd family (some zero) s h
with_port-IsCovered i unixfd recvfd family (some zero) (some (suc port)) s h =
    registered-IsCovered i unixfd recvfd family (some (suc port)) s h

with_name-IsCovered :
    (i unixfd recvfd : ℕ) (name : Option (ℕ × Option ℕ)) (bound : Option ℕ) (s : State)
    → IsCovered s
    → IsCovered (with_name i unixfd recvfd name bound s)
unfolding with_name
with_name-IsCovered i unixfd recvfd none bound s h = client_err-IsCovered i unixfd (some recvfd) s h
with_name-IsCovered i unixfd recvfd (some (family, port)) bound s h =
    with_port-IsCovered i unixfd recvfd family port bound s h

with_descriptor-IsCovered :
    (i unixfd : ℕ) (recvfd : Option ℕ) (k : Socket) (s : State)
    → IsCovered s
    → IsCovered (with_descriptor i unixfd recvfd k s)
unfolding with_descriptor
with_descriptor-IsCovered i unixfd none k s h = client_err-IsCovered i unixfd none s h
with_descriptor-IsCovered i unixfd (some recvfd) k s h =
    with_name-IsCovered i unixfd recvfd k.name k.bound s h

if_IsCovered : (b : Bool) (x y : State) → IsCovered x → IsCovered y → IsCovered (if b then x else y)
if_IsCovered true x y h k = h
if_IsCovered false x y h k = k

pub readable_conn-IsCovered :
    (i unixfd : ℕ) (sent : Sent) (k : Socket) (s : State)
    → IsCovered s
    → IsCovered (readable_conn i unixfd sent k s)
unfolding readable_conn
readable_conn-IsCovered i unixfd sent k s h =
    if_IsCovered sent.has_data (with_descriptor i unixfd sent.recvfd k s)
      (client_done i unixfd sent.recvfd s) (with_descriptor-IsCovered i unixfd sent.recvfd k s h)
      (client_done-IsCovered i unixfd sent.recvfd s h)
