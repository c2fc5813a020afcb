-- ===== src/Proxy/Endings.antt =====
-- When proxyHTTP2 of cmd/run/socket/proxy.go calls Finish for a stream.
use subtrace_docker_wireshar.Base.{
  ℕ, suc, ◌+◌, ◌≡◌, refl, subst, ◌∙◌, arith, Bool, true, false, Bool-cases, inl, inr, List, [], ◌∷◌,
  ◌++◌, Option, none, some, Option-cases, All, All-append, ◌==◌, if◌then◌else◌,
}
use subtrace_docker_wireshar.Base.Text.{codes, equal}
use subtrace_docker_wireshar.Proxy.Http2.{
  Bytes, Field, Block, Frame, Write, write_headers, write_data, headers_param, headers, body,
  settings_ack, settings, ping, window_update, rst_stream, priority, go_away, push_promise, unknown,
  Half, Stream, new_stream, half, with_half, add_field, on_field, on_fields, headers_done, end_half,
  if_ended, on_block, Recorded, recorded, errs, blocks, panics, or_panic, on_body, on_decoded, Conn,
  find_stream, put_stream, delete_stream, get_stream, write_to, Copied, copied, ends, waits,
  crashes, keep, copy_frame, reap, Step, reads, wakes, after_copy, run,
}

abbrev pub left : Half → ℕ
left h = if h.ended then 0 else 1

-- The counter is the number of directions that have not ended.
abbrev pub IsBalanced : Stream → Type 0
IsBalanced s = s.active ≡ left s.request + left s.response

abbrev pub BothEnded : Stream → Type 0
BothEnded s = (s.request.ended ≡ true) × (s.response.ended ≡ true)

-- What a block's fields leave alone.
record Same (s t : Stream) : Type 0 where
  active : t.active ≡ s.active
  request : t.request.ended ≡ s.request.ended
  response : t.response.ended ≡ s.response.ended

Same-trans : (s t u : Stream) → Same s t → Same t u → Same s u
Same-trans s t u h k = record {
  active = k.active ∙ h.active;
  request = k.request ∙ h.request;
  response = k.response ∙ h.response;
}

add_field-ended : (tr : Bool) (f : Field) (h : Half) → (add_field tr f h).ended ≡ h.ended
add_field-ended true f h = refl
add_field-ended false f h = refl

Same-half :
    (dir : Bool) (h : Half) (s : Stream) → h.ended ≡ (half dir s).ended → Same s (with_half dir h s)
Same-half true h s e = record { active = refl; request = e; response = refl }
Same-half false h s e = record { active = refl; request = refl; response = e }

Same-if : (b : Bool) (s t u : Stream) → Same s t → Same s u → Same s (if b then t else u)
Same-if true s t u h k = h
Same-if false s t u h k = k

Same-self : (s : Stream) → Same s s
Same-self s = record { active = refl; request = refl; response = refl }

on_field-Same : (dir tr : Bool) (f : Field) (s : Stream) → Same s (on_field dir tr f s)
unfolding on_field
on_field-Same dir tr (name, value) s =
    Same-if (equal name (codes ":method")) s _ _
      (record { active = refl; request = refl; response = refl })
      (Same-if (equal name (codes ":path")) s _ _
        (record { active = refl; request = refl; response = refl })
        (Same-if (equal name (codes ":scheme")) s _ _ (Same-self s) (
          Same-if (equal name (codes ":authority")) s _ _ (Same-self s) (
            Same-if (equal name (codes ":status")) s _ _
              (record { active = refl; request = refl; response = refl })
              (Same-half dir (add_field tr (name, value) (half dir s)) s
                (add_field-ended tr (name, value) (half dir s)))))))

on_fields-Same : (dir tr : Bool) (fs : List Field) (s : Stream) → Same s (on_fields dir tr fs s)
unfolding on_fields
on_fields-Same dir tr [] s = Same-self s
on_fields-Same dir tr (f ∷ fs) s =
    Same-trans s (on_field dir tr f s) (on_fields dir tr fs (on_field dir tr f s))
      (on_field-Same dir tr f s) (on_fields-Same dir tr fs (on_field dir tr f s))

headers_done-ended : (tr : Bool) (h : Half) → (headers_done tr h).ended ≡ h.ended
headers_done-ended true h = refl
headers_done-ended false h = refl

Same-IsBalanced : (s t : Stream) → Same s t → IsBalanced s → IsBalanced t
Same-IsBalanced s t h b = ground (arith, h.active, h.request, h.response, b)

Same-ended : (dir : Bool) (s t : Stream) → Same s t → (half dir t).ended ≡ (half dir s).ended
Same-ended true s t h = h.request
Same-ended false s t h = h.response

-- A direction that has not ended can end, and leaves the counter balanced.
abbrev Ended : Option Stream → Type 0
Ended none = ⊥
Ended (some s) = IsBalanced s

end_half-Ended :
    (dir : Bool) (s : Stream) → IsBalanced s → (half dir s).ended ≡ false → Ended (end_half dir s)
unfolding end_half
end_half-Ended true s b h =
    let e : s.active ≡ suc (left s.response) = ground (arith, b, h) in rw e (omega arith)
end_half-Ended false s b h =
    let e : s.active ≡ suc (left s.request) = ground (arith, b, h) in rw e (omega arith)

if_ended-Ended :
    (e dir : Bool) (s : Stream)
    → IsBalanced s
    → (e ≡ true → (half dir s).ended ≡ false)
    → Ended (if_ended e dir s)
if_ended-Ended true dir s b h = end_half-Ended dir s b (h refl)
if_ended-Ended false dir s b h = b

on_block-Ended :
    (dir : Bool) (b : Block) (fs : List Field) (s : Stream)
    → IsBalanced s
    → (b.stream_ended ≡ true → (half dir s).ended ≡ false)
    → Ended (on_block dir b fs s)
unfolding on_block
on_block-Ended dir b fs s bal h =
    let tr = (half dir s).headers_ended in
    let t = on_fields dir tr fs s in
    let u = with_half dir (headers_done tr (half dir t)) t in
    let st = on_fields-Same dir tr fs s in
    let su = Same-trans s t u st (Same-half dir _ t (headers_done-ended tr (half dir t))) in
    let sv = Same-if b.headers_ended s u t su st in
    if_ended-Ended b.stream_ended dir (if b.headers_ended then u else t)
      (Same-IsBalanced s _ sv bal) (λ e. Same-ended dir s _ sv ∙ h e)

module _ (P : Stream → Type 0) where
  abbrev pub AllStreams : List (ℕ × Stream) → Type 0
  AllStreams l = All (λ p. P p.1) l

  find_stream-All :
      (id : ℕ) (l : List (ℕ × Stream)) (s : Stream) → AllStreams l → find_stream id l ≡ some s → P s
  unfolding find_stream
  find_stream-All id [] s h e = cc
  find_stream-All id ((k, t) ∷ rest) s h e = elim (Bool-cases (k == id)) [
    | inl found ↦ let same : t ≡ s = ground (arith, found, e) in subst P same h.0
    | inr later ↦ find_stream-All id rest s h.1 (ground (arith, later, e))
  ]

  put_stream-All :
      (id : ℕ) (s : Stream) (l : List (ℕ × Stream))
      → AllStreams l
      → P s
      → AllStreams (put_stream id s l)
  unfolding put_stream
  put_stream-All id s [] h p = (p, tt)
  put_stream-All id s ((k, t) ∷ rest) h p = elim (Bool-cases (k == id)) [
    | inl found ↦ rw found (p, h.1)
    | inr later ↦ rw later (h.0, put_stream-All id s rest h.1 p)
  ]

  delete_stream-All :
      (id : ℕ) (l : List (ℕ × Stream)) → AllStreams l → AllStreams (delete_stream id l)
  unfolding delete_stream
  delete_stream-All id [] h = tt
  delete_stream-All id ((k, t) ∷ rest) h = elim (Bool-cases (k == id)) [
    | inl found ↦ rw found h.1
    | inr later ↦ rw later (h.0, delete_stream-All id rest h.1)
  ]

-- Open streams are balanced, and those that were finished have ended both ways.
pub record IsSound (c : Conn) : Type 0 where
  pub open_streams : AllStreams IsBalanced c.streams
  pub finished_streams : AllStreams BothEnded c.finished

get_stream-IsBalanced : (id : ℕ) (c : Conn) → IsSound c → IsBalanced (get_stream id c)
unfolding get_stream
get_stream-IsBalanced id c h = elim (Option-cases (find_stream id c.streams)) [
  | inl e ↦ rw (e, get_stream) (unfold new_stream in omega arith)
  | inr (s, e) ↦ rw (e, get_stream) (find_stream-All IsBalanced id c.streams s h.open_streams e)
]

-- A block that ends a direction comes before the direction has ended.
abbrev pub Fresh : Bool → Frame → Conn → Type 0
Fresh dir (headers b) c = b.stream_ended ≡ true → (half dir (get_stream b.stream c)).ended ≡ false
Fresh dir _ c = Unit

-- No panic, and a sound connection where it goes on.
abbrev pub Sound : Copied → Type 0
Sound (copied c) = IsSound c
Sound ends = Unit
Sound waits = Unit
Sound crashes = ⊥

abbrev Fine : Recorded → Type 0
Fine (recorded s) = IsBalanced s
Fine errs = Unit
Fine blocks = Unit
Fine panics = ⊥

or_panic-Fine : (o : Option Stream) → Ended o → Fine (or_panic o)
or_panic-Fine none h = absurd h
or_panic-Fine (some s) h = h

on_decoded-Fine :
    (dir : Bool) (b : Block) (o : Option (List Field)) (s : Stream)
    → IsBalanced s
    → (b.stream_ended ≡ true → (half dir s).ended ≡ false)
    → Fine (on_decoded dir b o s)
on_decoded-Fine dir b none s bal h = tt
on_decoded-Fine dir b (some fs) s bal h =
    or_panic-Fine (on_block dir b fs s) (on_block-Ended dir b fs s bal h)

Fine-if :
    (b : Bool) (x y : Recorded)
    → (b ≡ true → Fine x)
    → (b ≡ false → Fine y)
    → Fine (if b then x else y)
Fine-if true x y h k = h refl
Fine-if false x y h k = k refl

on_body-Fine : (dir e : Bool) (bs : Bytes) (s : Stream) → IsBalanced s → Fine (on_body dir e bs s)
unfolding on_body
on_body-Fine dir e bs s bal =
    let h = half dir s in
    let t = with_half dir (record h { bytes = h.bytes ++ bs }) s in
    let st = Same-half dir (record h { bytes = h.bytes ++ bs }) s refl in
    Fine-if h.ended _ _ (λ done. tt)
      (λ open_half.
        Fine-if h.used _ _
          (λ used. or_panic-Fine (if_ended e dir t) (
            if_ended-Ended e dir t (Same-IsBalanced s t st bal)
              (λ x. Same-ended dir s t st ∙ open_half)))
          (λ unused. tt))

IsSound-after :
    (c c' : Conn) → c'.streams ≡ c.streams → c'.finished ≡ c.finished → IsSound c → IsSound c'
IsSound-after c c' e f h = record {
  open_streams = rw e h.open_streams;
  finished_streams = rw f h.finished_streams;
}

write_to-Sound : (dir : Bool) (f : Write) (c : Conn) → IsSound c → IsSound (write_to dir f c)
write_to-Sound true f c h = IsSound-after c _ refl refl h
write_to-Sound false f c h = IsSound-after c _ refl refl h

keep-Sound :
    (id : ℕ) (r : Recorded) (go_on : Conn → Copied) (c : Conn)
    → IsSound c
    → Fine r
    → ((c' : Conn) → IsSound c' → Sound (go_on c'))
    → Sound (keep id r go_on c)
keep-Sound id (recorded s) go_on c h f k = k _ (record {
  open_streams = put_stream-All IsBalanced id s c.streams h.open_streams f;
  finished_streams = h.finished_streams;
})
keep-Sound id errs go_on c h f k = tt
keep-Sound id blocks go_on c h f k = tt
keep-Sound id panics go_on c h f k = absurd f

copy_frame-Sound :
    (dir : Bool) (f : Frame) (c : Conn)
    → IsSound c
    → Fresh dir f c
    → Sound (copy_frame dir true f c)
unfolding copy_frame
copy_frame-Sound dir (headers b) c h k =
    keep-Sound b.stream (on_decoded dir b b.fields (get_stream b.stream c)) _ c h
      (on_decoded-Fine dir b b.fields (get_stream b.stream c) (get_stream-IsBalanced b.stream c h)
        k)
      (λ c' h'. write_to-Sound dir (write_headers (headers_param b)) c' h')
copy_frame-Sound dir (body d) c h k =
    keep-Sound d.stream (on_body dir d.stream_ended d.bytes (get_stream d.stream c))
      (λ c'. copied c') (write_to dir (write_data d.stream d.stream_ended d.bytes) c)
      (write_to-Sound dir _ c h)
      (on_body-Fine dir d.stream_ended d.bytes (get_stream d.stream c)
        (get_stream-IsBalanced d.stream c h))
      (λ c' h'. h')
copy_frame-Sound dir (unknown bs) c h k = h
copy_frame-Sound dir settings_ack c h k = write_to-Sound dir _ c h
copy_frame-Sound dir (settings l) c h k = write_to-Sound dir _ c h
copy_frame-Sound dir (ping a bs) c h k = write_to-Sound dir _ c h
copy_frame-Sound dir (window_update i n) c h k = write_to-Sound dir _ c h
copy_frame-Sound dir (rst_stream i n) c h k = write_to-Sound dir _ c h
copy_frame-Sound dir (priority i n) c h k = write_to-Sound dir _ c h
copy_frame-Sound dir (go_away i n bs) c h k = write_to-Sound dir _ c h
copy_frame-Sound dir (push_promise p) c h k = write_to-Sound dir _ c h

balanced_zero : (s : Stream) → IsBalanced s → (s.active == 0) ≡ true → BothEnded s
balanced_zero s b z = (ground (arith, b, z), ground (arith, b, z))

reap-Sound : (id : ℕ) (c : Conn) → IsSound c → IsSound (reap id c)
unfolding reap
reap-Sound id c h = elim (Option-cases (find_stream id c.streams)) [
  | inl e ↦ rw (e, reap) h
  | inr (s, e) ↦ elim (Bool-cases (s.active == 0)) [
    | inr z ↦ rw (e, reap, z) h
    | inl z ↦
        let bal = find_stream-All IsBalanced id c.streams s h.open_streams e in
        rw (e, reap, z)
          (record {
            open_streams = delete_stream-All IsBalanced id c.streams h.open_streams;
            finished_streams =
                All-append (λ p. BothEnded p.1) c.finished ((id, s) ∷ []) h.finished_streams
                  (balanced_zero s bal z, tt);
          })
  ]
]

abbrev AfterRound : (Conn → Type 0) → Copied → Type 0
AfterRound P (copied c) = P c
AfterRound P _ = Unit

-- Blocks end a direction at most once.
abbrev pub IsOrderly : List Step → Conn → Type 0
IsOrderly [] c = Unit
IsOrderly (wakes id ∷ rest) c = IsOrderly rest (reap id c)
IsOrderly (reads dir f ∷ rest) c =
    Fresh dir f c × AfterRound (λ c'. IsOrderly rest c') (copy_frame dir true f c)

after_copy-Sound :
    (rest : List Step) (r : Copied)
    → Sound r
    → AfterRound (λ c'. IsOrderly rest c') r
    → ((c' : Conn) → IsSound c' → IsOrderly rest c' → Sound (run rest c'))
    → Sound (after_copy (λ c'. run rest c') r)
after_copy-Sound rest (copied c') h o k = k c' h o
after_copy-Sound rest ends h o k = tt
after_copy-Sound rest waits h o k = tt
after_copy-Sound rest crashes h o k = absurd h

run-Sound : (steps : List Step) (c : Conn) → IsSound c → IsOrderly steps c → Sound (run steps c)
unfolding run
run-Sound [] c h o = h
run-Sound (wakes id ∷ rest) c h o = run-Sound rest (reap id c) (reap-Sound id c h) o
run-Sound (reads dir f ∷ rest) c h o =
    after_copy-Sound rest (copy_frame dir true f c) (copy_frame-Sound dir f c h o.0) o.1
      (λ c' h' o'. run-Sound rest c' h' o')

abbrev pub new_conn : Conn
new_conn = record { streams = []; to_server = []; to_client = []; finished = [] }

-- No panic, and where both go on, only streams that have ended both ways were finished.
abbrev pub Finishes : Copied → Type 0
Finishes (copied c) = AllStreams BothEnded c.finished
Finishes ends = Unit
Finishes waits = Unit
Finishes crashes = ⊥

Sound-Finishes : (r : Copied) → Sound r → Finishes r
Sound-Finishes (copied c) h = h.finished_streams
Sound-Finishes ends h = tt
Sound-Finishes waits h = tt
Sound-Finishes crashes h = absurd h

-- On a new HTTP/2 connection whose blocks of headers end no direction of a stream twice, the two directions
-- never panic, in whatever order they read and the goroutines of the streams wake, and as long as both go
-- on, Finish was called for those streams only that have ended in both directions.
pub run-Finishes : (steps : List Step) → IsOrderly steps new_conn → Finishes (run steps new_conn)
run-Finishes steps o =
    Sound-Finishes (run steps new_conn)
      (run-Sound steps new_conn (record { open_streams = tt; finished_streams = tt }) o)
