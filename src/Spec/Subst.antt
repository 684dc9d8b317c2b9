-- ===== src/Spec/Subst.antt =====
-- Substitution of `%VAR%`: `_subst` and its kin of the class `Spec`.
pub mod Pieces
pub mod Loop
pub mod Acyclic
use ldms_test.Base.{
  ℕ, zero, suc, Text, Bool, Option, none, some, List, [], ◌∷◌, ◌++◌, ◌&&◌, ◌||◌, ◌==◌, nat_eq,
  text_eq, leb, ltb, map, if◌then◌else◌, Result, ok, err, key_error, type_error, value_error,
}
use ldms_test.Base.{◌>>=◌ as ◌>>=ᵣ◌}
use ldms_test.Base.Dict
use ldms_test.Base.Dict.{Dict}
use ldms_test.Base.Outcome.{Outcome, done, raised, running, of_result, ◌>>=◌}
use ldms_test.Value.{
  Value, Items, Fields, null, bool, int, float, str, list, tuple, dict, nil, cons, end, field,
  items, str_of, is_primitive,
}

abbrev pub Vars : Type 0
Vars = Dict Text Value

-- The class `[0-9a-zA-Z-._]` of `VAR_RE`.
unfoldable pub is_word : ℕ → Bool
is_word c =
    (leb b'0' c && leb c b'9')
    || ((leb b'a' c && leb c b'z')
        || ((leb b'A' c && leb c b'Z') || (c == b'-' || (c == b'.' || c == b'_'))))

-- A text as `VAR_RE` splits it: the characters between the matches, and the matches by their group.
pub data Piece : Type 0 where
  lit : ℕ → Piece
  var : Text → Piece

-- The leftmost matches. Within a candidate the word that was read since its `%` is kept: another
-- character than a word character or `%` ends it, and it was plain text.
pub pieces_from : Option Text → Text → List Piece
pieces_from none [] = []
pieces_from (some w) [] = lit b'%' ∷ map lit w
pieces_from none (c ∷ s) =
    let open_ = pieces_from (some []) s in
    let plain = lit c ∷ pieces_from none s in if c == b'%' then open_ else plain
pieces_from (some w) (c ∷ s) =
    let longer = pieces_from (some (w ++ (c ∷ []))) s in
    let found = var w ∷ pieces_from none s in
    let plain = lit b'%' ∷ (map lit w ++ (lit c ∷ pieces_from none s)) in
    if is_word c then longer else if c == b'%' then found else plain

unfoldable pub pieces : Text → List Piece
unfolding pieces_from is_word
pieces = pieces_from none

-- `str(self.VAR[m.group(1)])` for the matches
unfoldable pub fill : Vars → List Piece → Result Text
fill vars [] = ok []
fill vars (lit c ∷ ps) = fill vars ps >>=ᵣ λ s. ok (c ∷ s)
fill vars (var n ∷ ps) = elim (Dict.lookup n vars) [
  | none ↦ err key_error
  | some v ↦ fill vars ps >>=ᵣ λ s. ok (str_of v ++ s)
]

-- One `VAR_RE.sub`.
unfoldable pub sub : Vars → Text → Result Text
unfolding fill pieces
sub vars s = fill vars (pieces s)

-- The `while` loop of `_subst_str`, with its counter.
unfoldable pub subst_loop : ℕ → Vars → ℕ → Text → Text → Outcome Text
subst_loop zero vars count s0 s1 = running
subst_loop (suc fuel) vars count s0 s1 =
    let rest = of_result (sub vars s1) >>= λ s2. subst_loop fuel vars count s1 s2 in
    if s0 == s1 then done s0 else if ltb 128 count then raised value_error else rest

-- `_subst_str`
unfoldable pub subst_str : ℕ → Vars → Text → Outcome Text
unfolding subst_loop
subst_str fuel vars val = do
  s0 ← of_result (sub vars val)
  s1 ← of_result (sub vars s0)
  subst_loop fuel vars 0 s0 s1

-- The primitive items of a dict shadow the variables.
unfoldable pub bind_primitives : Vars → Dict Text Value → Vars
bind_primitives vars [] = vars
bind_primitives vars ((k, v) ∷ d) =
    bind_primitives (if is_primitive v then Dict.insert k v vars else vars) d

-- `_subst`; the variables are an argument where the code saves and restores `self.VAR`
unfoldable mutual
  pub subst : ℕ → Vars → Value → Outcome Value
  subst fuel vars null = raised type_error
  subst fuel vars (bool b) = done (bool b)
  subst fuel vars (int z) = done (int z)
  subst fuel vars (float s) = done (float s)
  subst fuel vars (str s) = do t ← subst_str fuel vars s; done (str t)
  subst fuel vars (list xs) = do ys ← subst_items fuel vars xs; done (list ys)
  subst fuel vars (tuple xs) = do ys ← subst_items fuel vars xs; done (tuple ys)
  subst fuel vars (dict fs) = do
    gs ← subst_fields fuel (bind_primitives vars (items fs)) fs
    done (dict gs)

  pub subst_items : ℕ → Vars → Items → Outcome Items
  subst_items fuel vars nil = done nil
  subst_items fuel vars (cons v xs) = do
    w ← subst fuel vars v
    ys ← subst_items fuel vars xs
    done (cons w ys)

  pub subst_fields : ℕ → Vars → Fields → Outcome Fields
  subst_fields fuel vars end = done end
  subst_fields fuel vars (field k v fs) = do
    w ← subst fuel vars v
    gs ← subst_fields fuel vars fs
    done (field k w gs)
