-- ===== src/HttpHead/Tests.antt =====
-- Heads and polls of `WaitForHttpHead` at concrete inputs.
use websocat.Base.{
  ◌≡◌, ◌++◌, refl, [], ◌∷◌, Bytes, ok, codes, arith, List, IoResult, err, would_block,
}
use websocat.HttpHead.{neutral, found, parse, wait_for_http_head, wait_poll}
use websocat.HttpHead.Heads.{head_of, crlf, parse-finds}
use websocat.HttpHead.Amid.{unread, IsFaithful}
use websocat.HttpHead.Polling.{wait_for_http_head-IsReading, wait_poll-IsFaithful}

parse-finds_example :
    parse neutral (head_of (codes "GET" ∷ codes "Host" ∷ []) ++ codes "body") 0 ≡ found 13
parse-finds_example = parse-finds (codes "GET") (codes "Host" ∷ []) (codes "body") (
  ((refl, (refl, (refl, tt))), omega arith),
  (((refl, (refl, (refl, (refl, tt)))), omega arith), tt),
)

-- A head cut in its middle.
abbrev cut_head : List (IoResult Bytes)
cut_head = ok (codes "GET" ++ b'\r' ∷ []) ∷ err would_block ∷ ok (b'\n' ∷ crlf) ∷ []

wait_poll-IsFaithful_example :
    IsFaithful (unread cut_head) (wait_poll (wait_for_http_head cut_head))
wait_poll-IsFaithful_example =
    wait_poll-IsFaithful (unread cut_head) (wait_for_http_head cut_head)
      (wait_for_http_head-IsReading cut_head)
