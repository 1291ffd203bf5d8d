-- ===== src/Poplar1/PairValue/Laws.antt =====
-- src/vdaf/poplar1.rs: pairs of elements of a group are a group.
use mastic.Prelude.{◌≡◌, Bool, true, false, if◌then◌else◌}
use mastic.Idpf.Value.{IdpfValue, IsGroup}
use mastic.Poplar1.PairValue.{Poplar1IdpfValue, pair_value}

module _ {F S : Type 0} {f : IdpfValue F (Unit {0}) S} {InRange : F → Type 0}
    (law : IsGroup f tt InRange) where
  pub record IsPair (a : Poplar1IdpfValue F) : Type 0 where
    pub first_in : InRange a.first
    pub second_in : InRange a.second

  pair_eq : {a b : Poplar1IdpfValue F} → a.first ≡ b.first → a.second ≡ b.second → a ≡ b
  pair_eq p q = cc

  select :
      (c : Bool) (a b : Poplar1IdpfValue F)
      → IsPair a
      → IsPair b
      → (pair_value f).conditional_select a b c ≡ (if c then b else a)
  select true a b p q =
      pair_eq (law.select a.first b.first true p.first_in q.first_in)
        (law.select a.second b.second true p.second_in q.second_in)
  select false a b p q =
      pair_eq (law.select a.first b.first false p.first_in q.first_in)
        (law.select a.second b.second false p.second_in q.second_in)

  -- Where the elements in range are an Abelian group under the operations of IdpfValue, so are the
  -- pairs of them.
  pub pair_value-IsGroup : IsGroup (pair_value f) tt IsPair
  pair_value-IsGroup = record {
    generate-InRange = λ s. record {
      first_in = law.generate-InRange s;
      second_in = law.generate-InRange (f.generate s tt).1;
    };
    zero-InRange = record { first_in = law.zero-InRange; second_in = law.zero-InRange };
    add-InRange = λ a b p q. record {
      first_in = law.add-InRange a.first b.first p.first_in q.first_in;
      second_in = law.add-InRange a.second b.second p.second_in q.second_in;
    };
    sub-InRange = λ a b p q. record {
      first_in = law.sub-InRange a.first b.first p.first_in q.first_in;
      second_in = law.sub-InRange a.second b.second p.second_in q.second_in;
    };
    negate-InRange = λ a p. record {
      first_in = law.negate-InRange a.first p.first_in;
      second_in = law.negate-InRange a.second p.second_in;
    };
    add_comm = λ a b p q.
        pair_eq (law.add_comm a.first b.first p.first_in q.first_in)
          (law.add_comm a.second b.second p.second_in q.second_in);
    add_assoc = λ a b c p q r.
        pair_eq (law.add_assoc a.first b.first c.first p.first_in q.first_in r.first_in)
          (law.add_assoc a.second b.second c.second p.second_in q.second_in r.second_in);
    add-zero = λ a p. pair_eq (law.add-zero a.first p.first_in) (law.add-zero a.second p.second_in);
    sub-add = λ a b p q.
        pair_eq (law.sub-add a.first b.first p.first_in q.first_in)
          (law.sub-add a.second b.second p.second_in q.second_in);
    add-negate =
        λ a p. pair_eq (law.add-negate a.first p.first_in) (law.add-negate a.second p.second_in);
    keep = λ a. pair_eq (law.keep a.first) (law.keep a.second);
    select = λ a b c p q. select c a b p q;
  }
