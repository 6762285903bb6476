-- ===== src/Proxy/Stream/Supply.antt =====
-- What a reader still gives, as the lemmas on reads need it: all that arrives, or what arrives before
-- the other side waits for an answer.
use pg_prism.Prelude.{ℕ, List, ◌++◌, ◌≡◌, ◌∙◌, length}
use pg_prism.Text.{Bytes}
use pg_prism.Proxy.Stream.{End, BufReader, got, read_exact, content}
use pg_prism.Proxy.Stream.Waiting.{Until, read_exact-Serves}
use pg_prism.Proxy.Forward.Copy.{read_all}

-- The reader has these bytes, and each read takes the next of them.
pub record Supply : Type 1 where
  pub Has : Bytes → BufReader → Type 0
  pub serve :
      (x y : Bytes) (reader : BufReader) (n : ℕ)
      → length x ≡ n
      → Has (x ++ y) reader
      → (r : BufReader) × (read_exact reader n ≡ got x r) × Has y r

abbrev pub Holds : End → Bytes → BufReader → Type 0
Holds ending bytes reader = (content reader ≡ bytes) × (reader.ending ≡ ending)

abbrev pub all_of : End → Supply
all_of ending = record {
  Has = Holds ending;
  serve = λ x y reader n len has.
      let (r, read, behind, same) = read_all x y reader n len has.0 in
      (r, read, (behind, same ∙ has.1));
}

abbrev pub before : List Bytes → End → Supply
before others ending = record { Has = Until others ending; serve = read_exact-Serves others ending }
