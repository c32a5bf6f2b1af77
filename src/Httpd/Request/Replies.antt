-- ===== src/Httpd/Request/Replies.antt =====
-- What `do_http_request` does with a client, from its first byte to the end of its headers.
use unix_network_programming.Base.{
  ℕ, ◌≤◌, ◌<◌, ◌≡◌, ◌≢◌, ap, ◌∙◌, List, [], ◌∷◌, ◌++◌, codes, some, false, arith, length,
  length-append, lt→ltb, else_branch,
}
use unix_network_programming.ByteIo.{Arrival}
use unix_network_programming.CString.{same_text}
use unix_network_programming.Httpd.{Client, Files, ok, bad_request, unimplemented}
use unix_network_programming.Httpd.Line.{GetLine, get_line}
use unix_network_programming.Httpd.Line.Laws.{
  readable, take_line, behind_line, Flows, stored_line, get_line_lem, get_line-IsLine,
  length-stored_line,
}
use unix_network_programming.Httpd.Response.Laws.{url_limit}
use unix_network_programming.Httpd.Request.{
  buf_size, after_line, on_line, refused, handle_line, do_http_request,
}
use unix_network_programming.Httpd.Request.Laws.{IsRequest, IsRequest-append, handle_line_lem}

-- The first line of the client, as `get_line` reads it.
abbrev pub request_line : Client → List ℕ
request_line c = take_line 255 (readable c.input)

request_nonempty : {l method url : List ℕ} → IsRequest l method url → 0 < length l
request_nonempty {method = method} {url = url} r =
    omega (
      arith,
      ap length r.is_buf,
      length-append method (r.sp ∷ (r.spaces ++ (url ++ r.sp' ∷ r.post))),
    )

pub do_http_request_line :
    (fs : Files) (junk : List ℕ) (c : Client) {r : GetLine}
    → get_line buf_size junk c.input ≡ some r
    → do_http_request fs junk c ≡ after_line fs r c
do_http_request_line fs junk c e = unfold do_http_request on_line in ap (on_line fs c) e

after_line_some :
    (fs : Files) (r : GetLine) (c : Client)
    → 0 < r.count
    → after_line fs r c ≡ handle_line fs r.buf (record c { input = r.input })
unfolding after_line
after_line_some fs r c h = rw (lt→ltb 0 r.count h)

after_line_none :
    (fs : Files) (r : GetLine) (c : Client)
    → r.count ≡ 0
    → after_line fs r c ≡ ok (refused (bad_request (record c { input = r.input })))
unfolding after_line
after_line_none fs r c h = rw h

-- The first line is read, and handled where it is a request.
handled :
    (fs : Files) (junk : List ℕ) (c : Client) {method url : List ℕ}
    → buf_size ≤ length junk
    → IsRequest (request_line c) method url
    → (rest : List Arrival) × (buf : List ℕ) × (do_http_request fs junk c
        ≡ handle_line fs buf (record c { input = rest }))
      × IsRequest buf method url
      × (buf_size ≤ length buf)
      × (Flows c.input → Flows rest × (readable rest ≡ behind_line 255 (readable c.input)))
handled fs junk c h r =
    let (rest, runs, smaller, behind) = get_line-IsLine buf_size junk c.input (omega arith) h in
    (
      rest,
      stored_line 255 (readable c.input) junk,
      do_http_request_line fs junk c runs ∙ after_line_some fs _ c (request_nonempty r),
      IsRequest-append _ r,
      omega (arith, length-stored_line 255 (readable c.input) junk h),
      behind,
    )

-- A client whose first line names another method gets the reply 501 and no other, and -1 is
-- returned.
pub do_http_request_other :
    (fs : Files) (junk : List ℕ) (c : Client) {method url : List ℕ}
    → buf_size ≤ length junk
    → IsRequest (request_line c) method url
    → url ≢ []
    → length url ≤ url_limit
    → same_text method (codes "GET") ≡ false
    → (rest : List Arrival) × (do_http_request fs junk c
        ≡ ok (refused (unimplemented (record c { input = rest }))))
do_http_request_other fs junk c {url = url} h r n fits other =
    let (rest, buf, runs, request, buf_fits, behind) = handled fs junk c h r in
    (
      rest,
      runs
          ∙ handle_line_lem fs url (record c { input = rest }) request n fits
          ∙ else_branch _ _ other,
    )

-- A client that sends no line, or an empty one, gets the reply 400 and no other, and -1 is returned.
pub do_http_request_empty :
    (fs : Files) (junk : List ℕ) (c : Client)
    → buf_size ≤ length junk
    → request_line c ≡ []
    → (rest : List Arrival) × (do_http_request fs junk c
        ≡ ok (refused (bad_request (record c { input = rest }))))
do_http_request_empty fs junk c h empty =
    let (rest, runs, smaller) = get_line_lem buf_size junk c.input (omega arith) h in
    (rest, do_http_request_line fs junk c runs ∙ after_line_none fs _ c (ap length empty))
