-- ===== src/Field/Fp128/Constants.antt =====
-- src/fp.rs: the constants of `FP32` and `FP128` are what the comments on the fields of
-- `FieldParameters` say.
use mastic.Prelude.{refl, arith, [], ◌∷◌}
use mastic.Field.Fp128.{FieldParameters}
use mastic.Field.Fp128.Reduction.{IsValid}

abbrev pub fp32 : FieldParameters
fp32 = record {
  p = 4293918721;
  mu = 17302828673139736575;
  r2 = 1676699750;
  g = 1074114499;
  num_roots = 20;
  bit_mask = 4294967295;
  roots =
      2564090464 ∷ 1729828257 ∷ 306605458 ∷ 2294308040 ∷ 1648889905 ∷ 57098624 ∷ 2788941825
      ∷ 2779858277 ∷ 368200145 ∷ 2760217336 ∷ 594450960 ∷ 4255832533 ∷ 1372848488 ∷ 721329415
      ∷ 3873251478 ∷ 1134002069 ∷ 7138597 ∷ 2004587313 ∷ 2989350643 ∷ 725214187 ∷ 1074114499 ∷ [];
}

abbrev pub fp128 : FieldParameters
fp128 = record {
  p = 340282366920938462946865773367900766209;
  mu = 18446744073709551615;
  r2 = 403909908237944342183153;
  g = 107630958476043550189608038630704257141;
  num_roots = 66;
  bit_mask = 340282366920938463463374607431768211455;
  roots =
      516508834063867445247 ∷ 340282366920938462430356939304033320962
      ∷ 129526470195413442198896969089616959958 ∷ 169031622068548287099117778531474117974
      ∷ 81612939378432101163303892927894236156 ∷ 122401220764524715189382260548353967708
      ∷ 199453575871863981432000940507837456190 ∷ 272368408887745135168960576051472383806
      ∷ 24863773656265022616993900367764287617 ∷ 257882853788779266319541142124730662203
      ∷ 323732363244658673145040701829006542956 ∷ 57532865270871759635014308631881743007
      ∷ 149571414409418047452773959687184934208 ∷ 177018931070866797456844925926211239962
      ∷ 268896136799800963964749917185333891349 ∷ 244556960591856046954834420512544511831
      ∷ 118945432085812380213390062516065622346 ∷ 202007153998709986841225284843501908420
      ∷ 332677126194796691532164818746739771387 ∷ 258279638927684931537542082169183965856
      ∷ 148221243758794364405224645520862378432 ∷ [];
}

pub fp32-IsValid : IsValid fp32
fp32-IsValid = record { one_lt = omega arith; p-le = omega arith; mu_lem = refl; r2_lem = refl }

pub fp128-IsValid : IsValid fp128
fp128-IsValid = record { one_lt = omega arith; p-le = omega arith; mu_lem = refl; r2_lem = refl }
