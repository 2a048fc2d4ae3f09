-- ===== src/Caching/Flash/Keys.antt =====
-- caching/flash.go: the keys that `composeKey` makes.
use Prim.Native.String.{◌++◌}
use text.Mathlib.TextLemmas.{
  nil-append, append_assoc, append_cancel_left, append-ne-nil_of_right_ne-nil,
}
use photon.Base.{◌≡◌, ◌≢◌, sym, ◌∙◌, String, string_discrete, ite, arith}
use photon.Caching.Flash.{answer, refuse, empty_key, compose_key}

-- What stands before the key of a request.
unfoldable pub prefix : String → String → String
prefix ns coll =
    ite (string_discrete ns "") (ite (string_discrete coll "") "" (coll ++ "::"))
      (ite (string_discrete coll "") (ns ++ "::") (ns ++ "::" ++ coll ++ "::"))

-- `composeKey` puts it before every key but the empty one.
pub compose_key_lem :
    (ns coll key : String) → key ≢ "" → compose_key ns coll key ≡ answer (prefix ns coll ++ key)
unfolding compose_key prefix
compose_key_lem ns coll key h = ground (
  arith,
  nil-append key,
  append_assoc coll "::" key,
  append_assoc ns "::" key,
  append_assoc ns ("::" ++ coll ++ "::") key,
  append_assoc "::" (coll ++ "::") key,
  append_assoc coll "::" key,
)

pub compose_key_empty : (ns coll : String) → compose_key ns coll "" ≡ refuse empty_key
unfolding compose_key
compose_key_empty ns coll = ground arith

pub answer-inj : (a b : String) → answer a ≡ answer b → a ≡ b
answer-inj a b h = cc

-- Within a namespace and a collection, two keys make the same key of the store only if they are
-- equal.
pub compose_key-inj :
    (ns coll k j fk : String)
    → compose_key ns coll k ≡ answer fk
    → compose_key ns coll j ≡ answer fk
    → k ≡ j
compose_key-inj ns coll k j fk h h' = elim (string_discrete k "") [
  | yes e ↦ absurd (ground (arith, e, h, compose_key_empty ns coll))
  | no n ↦ elim (string_discrete j "") [
    | yes e ↦ absurd (ground (arith, e, h', compose_key_empty ns coll))
    | no n' ↦ append_cancel_left (prefix ns coll) k j (
        answer-inj _ _
          (sym (compose_key_lem ns coll k n) ∙ h ∙ sym h' ∙ compose_key_lem ns coll j n'))
  ]
]

-- A namespace alone and a collection alone of the same name share their keys, and so do a
-- namespace with a collection and the two written as one namespace, when both names are not
-- empty.
pub compose_key_confuses :
    (ns coll key : String)
    → ns ≢ ""
    → coll ≢ ""
    → (compose_key "" ns key ≡ compose_key ns "" key)
      × (compose_key ns coll key ≡ compose_key (ns ++ "::" ++ coll) "" key)
unfolding compose_key
compose_key_confuses ns coll key h h' =
    let joined : ns ++ "::" ++ coll ≢ "" =
      append-ne-nil_of_right_ne-nil ns (append-ne-nil_of_right_ne-nil "::" h') in
    (
      ground arith,
      ground (
        arith,
        joined,
        append_assoc ns ("::" ++ coll) ("::" ++ key),
        append_assoc "::" coll ("::" ++ key),
      ),
    )
