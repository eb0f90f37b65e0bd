-- ===== src/Client/EnvFile.antt =====
-- Environment files: the loop of `loadEnv`, and a printer for files that it reads back.
use trading_matcher.Base.{
  ℕ, zero, suc, ◌<◌, ◌≡◌, ◌≢◌, refl, ap, ap₂, false, ◌∙◌, Option-cases, inl, inr, some, ◌||◌,
  if◌then◌else◌, List, [], ◌∷◌, ◌++◌, length, Text, arith,
}
use trading_matcher.Client.{getline, Environment, assign, is_nil, load_line, load_lines, load_env}
use trading_matcher.Client.Lines.{Lacks, Lacks-append, getline-found, length-getline, load_line_lem}

-- A variable that a line of the file can set.
pub record IsEntry (e : Text × Text) : Type 0 where
  pub named : e.0 ≢ []
  pub name_plain : Lacks b'=' e.0 × Lacks 0 e.0 × Lacks b'\n' e.0
  pub valued : e.1 ≢ []
  pub value_plain : Lacks 0 e.1 × Lacks b'\n' e.1

abbrev pub AllEntries : List (Text × Text) → Type 0
AllEntries [] = Unit
AllEntries (e ∷ es) = IsEntry e × AllEntries es

abbrev pub print_entry : Text × Text → Text
print_entry e = e.0 ++ b'=' ∷ e.1

pub print_entries : List (Text × Text) → Text
print_entries [] = []
print_entries (e ∷ es) = print_entry e ++ b'\n' ∷ print_entries es

-- The variables set one after the other.
abbrev pub assign_all : List (Text × Text) → Environment → Environment
assign_all [] env = env
assign_all (e ∷ es) env = assign_all es (assign e.0 e.1 env)

load_lines-more :
    (fuel : ℕ) (text line rest : Text) (env : Environment)
    → getline b'\n' text ≡ some (line, rest)
    → load_lines (suc fuel) text env ≡ load_lines fuel rest (load_line env line)
unfolding load_lines
load_lines-more fuel text line rest env e = rw (e, load_lines) refl

load_lines-total :
    (fuel : ℕ) (text : Text) (env : Environment)
    → length text < fuel
    → (env' : Environment) × (load_lines fuel text env ≡ some env')
unfolding load_lines
load_lines-total zero text env h = absurd (omega arith)
load_lines-total (suc fuel) text env h = elim (Option-cases (getline b'\n' text)) [
  | inl e ↦ (env, rw (e, load_lines) refl)
  | inr ((line, rest), e) ↦
      let (env', f) =
        load_lines-total fuel rest (load_line env line)
          (omega (arith, length-getline b'\n' text line rest e)) in
      (env', load_lines-more fuel text line rest env e ∙ f)
]

-- `loadEnv` ends on every file: one round more than the file has bytes is enough.
pub load_env_total :
    (file : Text) (env : Environment)
    → (env' : Environment) × (load_env (suc (length file)) (some file) env ≡ some env')
unfolding load_env
load_env_total file env = load_lines-total (suc (length file)) file env (omega arith)

is_nil-false : (xs : Text) → xs ≢ [] → is_nil xs ≡ false
is_nil-false [] n = absurd (n refl)
is_nil-false (x ∷ xs) n = refl

load_line-print_entry :
    (env : Environment) (e : Text × Text)
    → IsEntry e
    → load_line env (print_entry e) ≡ assign e.0 e.1 env
load_line-print_entry env (key, value) v =
    (load_line_lem env key value v.name_plain.0 v.name_plain.1 v.value_plain.0 v.value_plain.1).1
    ∙ ap₂ (λ a b. if a || b then env else assign key value env) (is_nil-false value v.valued)
        (is_nil-false key v.named)

load_lines-print :
    (fuel : ℕ) (es : List (Text × Text)) (env : Environment)
    → AllEntries es
    → length (print_entries es) < fuel
    → load_lines fuel (print_entries es) env ≡ some (assign_all es env)
unfolding load_lines print_entries getline
load_lines-print zero es env v h = absurd (omega arith)
load_lines-print (suc fuel) [] env v h = refl
load_lines-print (suc fuel) (e ∷ es) env v h =
    let rest = print_entries es in
    let plain =
      Lacks-append b'\n' e.0 (b'=' ∷ e.1) v.0.name_plain.2
        ((λ q. absurd (omega arith)), v.0.value_plain.1) in
    let found = getline-found b'\n' (print_entry e) rest plain in
    load_lines-more fuel (print_entries (e ∷ es)) (print_entry e) rest env found
    ∙ ap (load_lines fuel rest) (load_line-print_entry env e v.0)
    ∙ load_lines-print fuel es (assign e.0 e.1 env) v.1
        (omega (arith, length-getline b'\n' (print_entries (e ∷ es)) (print_entry e) rest found))

-- A printed list of variables is read back, if no name or value is empty or has a NUL byte or a line
-- break, and no name has `=`: with one round more than the file has bytes, each variable has afterwards
-- the last of the values that the list gives it, or what it had before.
pub load_env-print_entries :
    (es : List (Text × Text)) (env : Environment)
    → AllEntries es
    → load_env (suc (length (print_entries es))) (some (print_entries es)) env
      ≡ some (assign_all es env)
unfolding load_env
load_env-print_entries es env v =
    load_lines-print (suc (length (print_entries es))) es env v (omega arith)
