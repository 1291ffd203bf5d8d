-- ===== src/Poplar1/PairValue.antt =====
-- src/vdaf/poplar1.rs: `Poplar1IdpfValue`, a pair of field elements, as a value of an IDPF.
pub mod Laws
use mastic.Prelude.{ℕ, ◌*◌, Bool, Option, some, ok, ◌>>=◌}
use mastic.Codec.Traits.{Encoder, Decoder}
use mastic.Idpf.Value.{IdpfValue}

pub record Poplar1IdpfValue (F : Type 0) : Type 0 where
  pub first : F
  pub second : F

module _ {F S : Type 0} (f : IdpfValue F (Unit {0}) S) where
  abbrev pair_generate : S → Poplar1IdpfValue F × S
  pair_generate seed_stream =
      let (first, seed_stream') = f.generate seed_stream tt in
      let (second, seed_stream'') = f.generate seed_stream' tt in
      (record { first = first; second = second }, seed_stream'')

  abbrev both : (F → F → F) → Poplar1IdpfValue F → Poplar1IdpfValue F → Poplar1IdpfValue F
  both op self rhs = record { first = op self.first rhs.first; second = op self.second rhs.second }

  abbrev pub pair_value : IdpfValue (Poplar1IdpfValue F) (Unit {0}) S
  pair_value = record {
    generate = λ seed_stream _. pair_generate seed_stream;
    zero = λ _. record { first = f.zero tt; second = f.zero tt };
    add = both f.add;
    sub = both f.sub;
    conditional_negate = λ self choice. record {
      first = f.conditional_negate self.first choice;
      second = f.conditional_negate self.second choice;
    };
    conditional_select = λ a b choice. both (λ (x y : F). f.conditional_select x y choice) a b;
  }
