-- ===== src/Parser/Sending.antt =====
-- What Finish of tracer/parser.go sends: which events leave, and the tags that they carry.
use subtrace_docker_wireshar.Base.{◌≡◌, refl, true, false, some}
use subtrace_docker_wireshar.Config.{get_matching_filter}
use subtrace_docker_wireshar.Event.{Event}
use subtrace_docker_wireshar.Parser.Proto.{Bytes}
use subtrace_docker_wireshar.Parser.Har.{Side, recorded}
use subtrace_docker_wireshar.Parser.Finish.{
  Parser, seen_by, nothing_sent, sends, Setting, set_all, dropped, deliver, entry_of, join, finish,
}

-- A parser both of whose sides were recorded.
abbrev pub both : Parser → Side → Side → Parser
both p req resp = record p { request = some (recorded req); response = some (recorded resp) }

module _ (s : Setting) (p : Parser) (req resp : Side) where
  pub finish-dropped :
      dropped (get_matching_filter s.filters (seen_by s p req resp)) ≡ true
      → finish s (both p req resp) ≡ sends nothing_sent
  unfolding finish join
  finish-dropped e = rw e refl

  pub finish_kept :
      (json : Bytes)
      → dropped (get_matching_filter s.filters (seen_by s p req resp)) ≡ false
      → s.marshal (entry_of s p req resp) ≡ some json
      → finish s (both p req resp)
        ≡ sends (deliver s (both p req resp) (set_all s.stats p.event) (entry_of s p req resp) json)
  unfolding finish join
  finish_kept json e enc = rw (e, enc) refl
