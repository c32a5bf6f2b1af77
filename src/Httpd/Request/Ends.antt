-- ===== src/Httpd/Request/Ends.antt =====
-- The ways in which `do_http_request` ends.
use unix_network_programming.Httpd.{Files}
use unix_network_programming.Httpd.Serve.Laws.{Breaks}
use unix_network_programming.Httpd.Request.{Served, served, refused, out_of_fuel}

-- The loops of the request stopped by their own tests; only a file that breaks off keeps one of them.
abbrev pub IsDone : Files → Served → Type 0
IsDone fs (served c) = Unit
IsDone fs (refused c) = Unit
IsDone fs out_of_fuel = Breaks fs
