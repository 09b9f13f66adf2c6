-- ===== src/TargetSet/File/Tests.antt =====
-- A file of addresses of one character, over a concrete port.
use nodescan.Prelude.{
  ℕ, ◌-◌, ◌≡◌, ◌≢◌, refl, Option, none, some, List, [], ◌∷◌, ret, arith, if◌then◌else◌, ◌&&◌, ltb,
}
use nodescan.Buffer.{contents}
use nodescan.Buffer.Laws.{IsValid}
use nodescan.Lvl4.Process.{find_byte}
use nodescan.Target.{Target, end_target}
use nodescan.Target.Tests.{word_port, word_port-PortLaws}
use nodescan.TargetSet.{Next, gives}
use nodescan.TargetSet.File.{Input, TargetAsyncFile, next_target}
use nodescan.TargetSet.File.Calls.{Answers, next_target-Answers, next_target_early}

-- A digit is an address.
abbrev digit : List ℕ → Option ℕ
digit [] = none
digit (c ∷ []) = if ltb 47 c && ltb c 58 then some (c - 48) else none
digit (c ∷ d ∷ ds) = none

-- "x", a newline, "7", a newline and "8".
abbrev file : TargetAsyncFile ℕ
file = record {
  buf = record {
    buffer =
        some (
          120 ∷ 10 ∷ 55 ∷ 10 ∷ 56 ∷ 0 ∷ 0 ∷ 0 ∷ 0 ∷ 0 ∷ 0 ∷ 0 ∷ 0 ∷ 0 ∷ 0 ∷ 0 ∷ 0 ∷ 0 ∷ 0 ∷ 0 ∷ []);
    buf_size = 5;
    buf_pos = 5;
  };
  fd = 3;
  def_port = 80;
}

file-IsValid : IsValid file.buf
file-IsValid = record { sized = refl; small = omega arith; within = omega arith }

not_the_end : let e : Target ℕ = end_target in 80 ≢ e.port
unfolding end_target
not_the_end e = omega (arith, e)

-- A newline comes.
next_target-Answers_example :
    let a : Input = record { sel_ret = some 1; navail = some 1; got = some (10 ∷ []) } in
    (n : Next ℕ) × (s' : TargetAsyncFile ℕ) × Answers digit 80
      (next_target digit (λ i. 0) a file)
      a
      file
      n
      s'
next_target-Answers_example =
    next_target-Answers word_port-PortLaws digit 80 not_the_end (λ i. 0)
      (record { sel_ret = some 1; navail = some 1; got = some (10 ∷ []) }) file file-IsValid refl
      (record {
        gives_all = λ n counted. (10 ∷ [], ground (arith, counted), refl);
        room = λ n counted. (let e : 1 ≡ n = ground (arith, counted) in omega (arith, e));
      })

next_target_early_example :
    (s' : TargetAsyncFile ℕ) × (next_target digit
        (λ i. 0)
        (record { sel_ret = some 1; navail = some 0; got = none })
        file
      ≡ ret (gives end_target, s'))
    × (contents s'.buf ≡ 55 ∷ 10 ∷ 56 ∷ [])
unfolding find_byte
next_target_early_example =
    next_target_early word_port-PortLaws digit 80 not_the_end (λ i. 0)
      (record { sel_ret = some 1; navail = some 0; got = none }) file 1 0 file-IsValid refl refl
      refl refl
