-- ===== src/Tcp/Pipe/Accounts.antt =====
-- What a pipe writes on, and what it counts.
use playit_agent.Common.{
  ℕ, ◌+◌, ◌%◌, ◌^◌, ◌≡◌, refl, sym, ◌∙◌, inl, inr, Bool-cases, List, [], ◌∷◌, ◌++◌, append_assoc,
  append-nil, length, length-append, ◌==◌, if◌then◌else◌, arith,
}
use playit_agent.Io.{Bytes}
use playit_agent.Stats.{AgentStats, add_bytes_in, add_bytes_out}
use playit_agent.Tcp.Pipe.{
  PipeDirection, Shared, Turn, Pipe, new_pipe, count_bytes, closed, after_chunk, run,
}

-- The chunks that are written on: those before the first turn that ends the loop.
abbrev pub passed : List Turn → Bytes
passed [] = []
passed (Turn.read_failed ∷ rest) = []
passed (Turn.cancelled ∷ rest) = []
passed (Turn.chunk bytes written now ∷ rest) =
    if length bytes == 0 then [] else if written then bytes ++ passed rest else []

abbrev counted_in : PipeDirection → AgentStats → ℕ → ℕ
counted_in PipeDirection.tunnel_to_origin stats n = (stats.bytes_in + n) % 2 ^ 64
counted_in PipeDirection.origin_to_tunnel stats n = (stats.bytes_out + n) % 2 ^ 64

-- The counter of the direction.
abbrev pub counter : PipeDirection → AgentStats → ℕ
counter PipeDirection.tunnel_to_origin stats = stats.bytes_in
counter PipeDirection.origin_to_tunnel stats = stats.bytes_out

-- That of the other.
abbrev pub other_counter : PipeDirection → AgentStats → ℕ
other_counter PipeDirection.tunnel_to_origin stats = stats.bytes_out
other_counter PipeDirection.origin_to_tunnel stats = stats.bytes_in

counter-count_bytes :
    (d : PipeDirection) (stats : AgentStats) (n : ℕ)
    → (counter d (count_bytes d stats n) ≡ (counter d stats + n) % 2 ^ 64)
      × (other_counter d (count_bytes d stats n) ≡ other_counter d stats)
unfolding count_bytes add_bytes_in add_bytes_out
counter-count_bytes PipeDirection.tunnel_to_origin stats n = (refl, refl)
counter-count_bytes PipeDirection.origin_to_tunnel stats n = (refl, refl)

-- What is counted and written from one state to another.
record Passed (d : PipeDirection) (bytes : Bytes) (p q : Pipe) : Type 0 where
  output : q.output ≡ p.output ++ bytes
  written : q.shared.bytes_written % 2 ^ 64 ≡ (p.shared.bytes_written + length bytes) % 2 ^ 64
  counted : counter d q.stats % 2 ^ 64 ≡ (counter d p.stats + length bytes) % 2 ^ 64
  others : other_counter d q.stats ≡ other_counter d p.stats

nothing-Passed :
    (d : PipeDirection) (p : Pipe) (shared : Shared)
    → shared.bytes_written ≡ p.shared.bytes_written
    → Passed d [] p (record p { shared = shared })
nothing-Passed d p shared same = record {
  output = sym (append-nil p.output);
  written = omega (arith, same);
  counted = omega arith;
  others = refl;
}

run-Passed :
    (d : PipeDirection) (turns : List Turn) (p : Pipe) → Passed d (passed turns) p (run d turns p)
unfolding run
run-Passed d [] p = nothing-Passed d p p.shared refl
run-Passed d (Turn.read_failed ∷ rest) p = nothing-Passed d p (closed p).shared refl
run-Passed d (Turn.cancelled ∷ rest) p = nothing-Passed d p (closed p).shared refl
run-Passed d (Turn.chunk bytes written now ∷ rest) p = elim (Bool-cases (length bytes == 0)) [
  | inl ended ↦ rw (run, ended) (nothing-Passed d p (closed p).shared refl)
  | inr more ↦ elim (Bool-cases written) [
    | inr lost ↦ rw (run, more, lost) (nothing-Passed d p (closed p).shared refl)
    | inl sent ↦
        let q : Pipe = after_chunk d bytes now p in
        let later : Passed d (passed rest) q (run d rest q) = run-Passed d rest q in
        let own = counter-count_bytes d p.stats (length bytes) in
        rw (run, more, sent)
          (record {
            output = later.output ∙ append_assoc p.output bytes (passed rest);
            written = omega (arith, later.written, length-append bytes (passed rest));
            counted = omega (arith, later.counted, own.0, length-append bytes (passed rest));
            others = later.others ∙ own.1;
          })
  ]
]

-- A new pipe writes on, in order and whole, the chunks before its end, and counts exactly their bytes
-- (modulo 2^64): as its own, and among the agent's bytes of its direction, while those of the other
-- direction stay as they were.
pub run-passed :
    (d : PipeDirection) (turns : List Turn) (stats : AgentStats) (now : ℕ)
    → ((run d turns (new_pipe stats now)).output ≡ passed turns)
      × ((run d turns (new_pipe stats now)).shared.bytes_written % 2 ^ 64
          ≡ length (passed turns) % 2 ^ 64)
      × (counter d (run d turns (new_pipe stats now)).stats % 2 ^ 64
          ≡ (counter d stats + length (passed turns)) % 2 ^ 64)
      × (other_counter d (run d turns (new_pipe stats now)).stats ≡ other_counter d stats)
run-passed d turns stats now =
    let h = run-Passed d turns (new_pipe stats now) in
    (h.output, omega (arith, h.written), h.counted, h.others)
