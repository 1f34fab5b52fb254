-- ===== src/Spike/Fuzz/Returns.antt =====
-- How the driver of tools/spike_diff/fuzz.py ends.
use determinant.Base.{ℕ, ◌-◌, ◌/◌, ◌%◌, ◌≤◌, ◌<◌, ◌≡◌, refl, String, none, some, List, length, In}
use determinant.Spike.Compare.{Record, load_addr}
use determinant.Spike.Compare.Configs.{Config, Records}
use determinant.Spike.Fuzz.{Mix, Prepared, Setting, run_built, prepare, built, failed, ran}
use determinant.Spike.Generator.Mixes.{cats, total_weight}
use determinant.Spike.Generator.Program.{Program, new_gen}
use determinant.Spike.Generator.Sound.Whole.{IsProgram, generate-IsProgram}

-- Every mix that has a weight gives a program to build.
pub prepare-some :
    (a : Setting) (mix : Mix) (seed : ℕ)
    → 0 < total_weight mix.weights cats
    → (p : Program) × IsProgram (new_gen (a.stream mix.name seed)).0.base p
      × (prepare a mix seed ≡ some (run_built a seed (a.build mix.name seed p)))
unfolding prepare
prepare-some a mix seed some_weight =
    let (p, made, sound) =
      generate-IsProgram mix.weights a.items (a.stream mix.name seed) some_weight in
    (p, sound, rw (made, prepare) refl)

-- A record of the runner: x1 to x31, and the memory up to `trap_dump`, which is whole words.
pub record IsRecord (det : Record) : Type 0 where
  pub regs : 31 ≤ length det.regs
  pub words : length det.mem % 4 ≡ 0

-- What the programs are relied on for: the runner prints a record of every configuration for each
-- line of its manifest, and Spike's signature has the words from the load address to `trap_dump`,
-- where it writes one. Nothing is said of the words behind them.
pub record IsAsDocumented (a : Setting) : Type 0 where
  pub recorded :
      (lines : List (String × ℕ)) (bin : String) (trap_dump : ℕ)
      → In (bin, trap_dump) lines
      → (rec : Records) × (a.run_runner lines bin ≡ some rec)
        × ((c : Config) → (det : Record) × (rec c ≡ some det) × IsRecord det)
  pub signed :
      (mix : String) (seed : ℕ) (p : Program) (bin : String) (trap_dump : ℕ) (words : List ℕ)
      → a.build mix seed p ≡ built bin trap_dump
      → a.run_spike bin ≡ some words
      → (trap_dump - load_addr) / 4 ≤ length words

-- The signature of a program that has one reaches `trap_dump`.
HasSignature : Prepared → Type 0
HasSignature (failed seed message) = Unit
HasSignature (ran seed bin none trap_dump) = Unit
HasSignature (ran seed bin (some words) trap_dump) = (trap_dump - load_addr) / 4 ≤ length words
