-- ===== src/Call/Packing.antt =====
-- The packing loop of `pbox_call` (src/pbox/pbox.c): what it leaves in the channel.
use sbox.Prelude.{
  ℕ, suc, ◌+◌, ◌*◌, ◌<◌, ◌≤◌, ◌≡◌, refl, ◌∙◌, ap, List, [], ◌∷◌, some, length, set, map, get_elem?,
  arith, length-set, le→leb, get_elem?-set_self, get_elem?-set_ne,
}
use sbox.Dyfn.Types.{code, of_code, pbox_type_size, IsNamed, pbox_type_size-le}
use sbox.Dyfn.Call.{Arg}
use sbox.Channel.{Channel, put_arg, max_args, arg_storage_size}
use sbox.Channel.Pack.{Sized, Fits, put_args}
use sbox.Call.{HostArg, pack_args}

-- What the host must bring: named types, and for each argument as many bytes as its type has.
abbrev pub Ready : List HostArg → Type 0
Ready [] = Unit
Ready ((t, v) ∷ rest) = IsNamed t × (pbox_type_size t ≤ length v) × Ready rest

abbrev pub sized : HostArg → Sized
sized (t, v) = (pbox_type_size t, v)

-- The type codes as the loop writes them.
abbrev pub typed : List ℕ → ℕ → List HostArg → List ℕ
typed types i [] = types
typed types i ((t, v) ∷ rest) = typed (set types i (code t)) (i + 1) rest

-- An argument as the sandbox names its type.
abbrev pub crossed : HostArg → Arg
crossed (t, v) = (of_code (code t), v)

pub Ready-Fits : (args : List HostArg) → Ready args → Fits (map sized args)
Ready-Fits [] h = tt
Ready-Fits ((t, v) ∷ rest) (named, backed, h) = (backed, pbox_type_size-le t, Ready-Fits rest h)

pub length-sized : (args : List HostArg) → length (map sized args) ≡ length args
length-sized [] = refl
length-sized (a ∷ rest) = ap suc (length-sized rest)

-- The packing loop never fails its assertion, and packs as `put_args` does.
pub pack_args-eq :
    (ch : Channel) (i o : ℕ) (args : List HostArg)
    → i + length args ≤ max_args
    → o ≤ 8 * i
    → pack_args ch i o args
      ≡ some (put_args (record ch { arg_types = typed ch.arg_types i args }) i o (map sized args))
unfolding pack_args put_args put_arg
pack_args-eq ch i o [] le room = refl
pack_args-eq ch i o ((t, v) ∷ rest) le room =
    rw (le→leb (o + pbox_type_size t) arg_storage_size (omega (arith, pbox_type_size-le t))) (
      pack_args-eq
        (put_arg (record ch { arg_types = set ch.arg_types i (code t) }) i o v (pbox_type_size t))
        (i + 1) (o + pbox_type_size t) rest (omega arith) (omega (arith, pbox_type_size-le t)))

-- The codes from index `i` on.
abbrev pub TypesAt : ℕ → List HostArg → List ℕ → Type 0
TypesAt i [] types = Unit
TypesAt i ((t, v) ∷ rest) types = (get_elem? types i ≡ some (code t)) × TypesAt (i + 1) rest types

get_elem?-typed :
    (types : List ℕ) (i j : ℕ) (args : List HostArg)
    → j < i
    → get_elem? (typed types i args) j ≡ get_elem? types j
get_elem?-typed types i j [] h = refl
get_elem?-typed types i j ((t, v) ∷ rest) h =
    get_elem?-typed (set types i (code t)) (i + 1) j rest (omega arith)
    ∙ get_elem?-set_ne types i j (code t) (λ e. omega arith)

pub typed-TypesAt :
    (types : List ℕ) (i : ℕ) (args : List HostArg)
    → i + length args ≤ length types
    → TypesAt i args (typed types i args)
typed-TypesAt types i [] h = tt
typed-TypesAt types i ((t, v) ∷ rest) h = (
  get_elem?-typed (set types i (code t)) (i + 1) i rest (omega arith)
      ∙ get_elem?-set_self types i (code t) (omega arith),
  typed-TypesAt (set types i (code t)) (i + 1) rest
      (omega (arith, length-set {0} types i (code t))),
)

pub length-typed :
    (types : List ℕ) (i : ℕ) (args : List HostArg) → length (typed types i args) ≡ length types
length-typed types i [] = refl
length-typed types i ((t, v) ∷ rest) =
    length-typed (set types i (code t)) (i + 1) rest ∙ length-set types i (code t)
