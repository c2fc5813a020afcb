-- ===== src/Examples/Bodies.antt =====
-- What tracer/parser.go keeps of a body, and the waits of tracer/publisher.go.
use subtrace_docker_wireshar.Base.{ℕ, ◌<◌, ◌≡◌, true, List, [], ◌∷◌, length, take}
use subtrace_docker_wireshar.Tracer.Sampler.{new_sampler, read_all, whole_body, read_all-first}

abbrev chunks : List (List ℕ)
chunks = (1 ∷ 2 ∷ []) ∷ [] ∷ (3 ∷ 4 ∷ 5 ∷ []) ∷ []

read_all-first_example :
    ((read_all 4 new_sampler chunks).kept ≡ take 4 (whole_body chunks))
    × ((read_all 4 new_sampler chunks).over ≡ true → 4 < length (whole_body chunks))
read_all-first_example = read_all-first 4 chunks
