-- ===== src/Tests/Connect.antt =====
-- The functions of Connect on a host with two addresses, the first of which refuses.
use unix_network_programming.Base.{
  ℕ, ◌+◌, ◌≡◌, refl, List, [], ◌∷◌, true, some, none, ◌==◌, codes, length,
}
use unix_network_programming.Gai.{sock_stream, sock_dgram, ai_passive}
use unix_network_programming.Gai.Search.{ga_nsearch}
use unix_network_programming.Gai.Entry.{ga_aistruct}
use unix_network_programming.Gai.Service.{ga_serv}
use unix_network_programming.Gai.Lookup.{getaddrinfo}
use unix_network_programming.Connect.{
  Kernel, Process, Outcome, returned, exits, breaks, tcp_connect, tcp_listen, udp_client,
  udp_connect, udp_server, host_serv,
}
use unix_network_programming.Connect.Laws.{FirstUsable, always, asked, sockets-FirstUsable}
use unix_network_programming.Tests.Gai.{resolver, world}

-- The first call of connect fails.
abbrev kernel : Kernel
kernel = record {
  socket = λ n ai. some (10 + n);
  connect = λ n fd ai. fd == 13;
  bind = λ n fd ai. true;
  setsockopt = λ n fd. true;
  listen = λ n fd. true;
  close = λ n fd. true;
}

abbrev process : Process
process = record { opened = 0 ∷ 1 ∷ 2 ∷ []; calls = 0; tried = [] }

abbrev seen : Outcome → List ℕ × ℕ
seen (returned fd ai q) = (q.opened, length q.tried)
seen (exits q) = (q.opened, 100 + length q.tried)
seen (breaks q) = (q.opened, 200 + length q.tried)

second :
    seen (tcp_connect resolver world kernel (some (codes "h")) (some (codes "80")) process)
    ≡ (13 ∷ 0 ∷ 1 ∷ 2 ∷ [], 2)
unfolding tcp_connect getaddrinfo ga_nsearch ga_aistruct ga_serv
second = refl

unknown :
    seen (udp_client resolver world kernel (some (codes "x")) (some (codes "80")) process)
    ≡ (0 ∷ 1 ∷ 2 ∷ [], 100)
unfolding udp_client getaddrinfo ga_nsearch ga_aistruct ga_serv
unknown = refl

no_host : host_serv resolver world (some (codes "x")) none 0 0 ≡ none
unfolding host_serv getaddrinfo ga_nsearch ga_aistruct ga_serv
no_host = refl

sockets-FirstUsable_example :
    FirstUsable kernel kernel.connect 1
      (asked resolver world kernel (some (codes "h")) (some (codes "80")) process 0 sock_stream)
      process
      (tcp_connect resolver world kernel (some (codes "h")) (some (codes "80")) process)
    × FirstUsable kernel kernel.bind 2
        (asked resolver world kernel
          (some (codes "h"))
          (some (codes "80"))
          process
          ai_passive
          sock_stream)
        process
        (tcp_listen resolver world kernel (some (codes "h")) (some (codes "80")) process)
    × FirstUsable kernel always 0
        (asked resolver world kernel (some (codes "h")) (some (codes "80")) process 0 sock_dgram)
        process
        (udp_client resolver world kernel (some (codes "h")) (some (codes "80")) process)
    × FirstUsable kernel kernel.connect 1
        (asked resolver world kernel (some (codes "h")) (some (codes "80")) process 0 sock_dgram)
        process
        (udp_connect resolver world kernel (some (codes "h")) (some (codes "80")) process)
    × FirstUsable kernel kernel.bind 1
        (asked resolver world kernel
          (some (codes "h"))
          (some (codes "80"))
          process
          ai_passive
          sock_dgram)
        process
        (udp_server resolver world kernel (some (codes "h")) (some (codes "80")) process)
sockets-FirstUsable_example =
    sockets-FirstUsable resolver world kernel (some (codes "h")) (some (codes "80")) process
