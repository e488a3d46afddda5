-- ===== src/Storage/Database.antt =====
-- The object stores of the browser as the transactions use them: `meta` holds a value under each
-- key, and each queue its operations in the order of their keys, which are their identifiers. To add
-- an operation whose key is there is an error, which aborts the transaction.
use mathlib.Core.Path.{refl, ◌≡◌}
use native.Mathlib.Omega.{arith}
use pomodorough_server.Js.Result.{
  Result, bind-eq-ok, err, if-eq-ok, ok, ok-injective, plain, thrown, ◌>>=◌,
}
use pomodorough_server.Js.Text.{codes, compare_units, utf16}
use pomodorough_server.Js.Value.{Props}
use pomodorough_server.Prelude.{
  List, String, [], ap, eq_iff, if◌then◌else◌, member, not, str_eq, sym, ◌&&◌, ◌||◌, ◌∙◌, ◌∷◌,
}
use pomodorough_server.Prelude.Int.{leb_ℤ, pos}
use pomodorough_server.Queue.{Operation, Queues, ids}

pub record Database : Type 0 where
  pub meta : Props
  pub queues : Queues (List Operation)

-- `store.put(operation)`
unfoldable pub put_item : Operation → List Operation → List Operation
unfolding compare_units
put_item op [] = op ∷ []
put_item op (o ∷ os) =
    let further = put_item op os in
    if str_eq op.id o.id
    then op ∷ os
    else if leb_ℤ (compare_units (utf16 (codes op.id)) (utf16 (codes o.id))) (pos 0)
    then op ∷ o ∷ os
    else o ∷ further

-- `store.add(operation)`
unfoldable pub add_item : Operation → List Operation → Result (List Operation)
unfolding put_item
add_item op ops =
    if member op.id (ids ops)
    then err (thrown plain "Key already exists in the object store.")
    else ok (put_item op ops)

abbrev pub add_items : List Operation → List Operation → Result (List Operation)
add_items [] ops = ok ops
add_items (new ∷ more) ops = add_item new ops >>= λ added. add_items more added

-- `store.delete(id)`
unfoldable pub delete_item : String → List Operation → List Operation
delete_item id [] = []
delete_item id (o ∷ os) = let rest = delete_item id os in if str_eq o.id id then rest else o ∷ rest

abbrev pub delete_items : List String → List Operation → List Operation
delete_items [] ops = ops
delete_items (id ∷ more) ops = delete_items more (delete_item id ops)

pub member-put_item :
    (z : String) (op : Operation) (ops : List Operation)
    → member z (ids (put_item op ops)) ≡ (str_eq z op.id || member z (ids ops))
unfolding put_item
member-put_item z op [] = refl
member-put_item z op (o ∷ os) =
    ground (arith, member-put_item z op os, eq_iff op.id o.id, eq_iff z op.id, eq_iff z o.id)

pub member-add_items :
    (z : String) (new ops after_it : List Operation)
    → add_items new ops ≡ ok after_it
    → member z (ids after_it) ≡ (member z (ids new) || member z (ids ops))
unfolding add_item
member-add_items z [] ops after_it h = ap (λ os. member z (ids os)) (sym (ok-injective h))
member-add_items z (new ∷ more) ops after_it h =
    let (added, here_added, h1) = bind-eq-ok (add_item new ops) _ h in
    let (_, h2) = if-eq-ok (member new.id (ids ops)) _ _ here_added in
    let same : put_item new ops ≡ added = ok-injective h2 in
    member-add_items z more added after_it h1
    ∙ rw (← same, member-put_item z new ops) (ground arith)

pub member-delete_item :
    (z id : String) (ops : List Operation)
    → member z (ids (delete_item id ops)) ≡ (member z (ids ops) && not (str_eq z id))
unfolding delete_item
member-delete_item z id [] = refl
member-delete_item z id (o ∷ os) =
    ground (arith, member-delete_item z id os, eq_iff o.id id, eq_iff z id, eq_iff z o.id)

pub member-delete_items :
    (z : String) (gone : List String) (ops : List Operation)
    → member z (ids (delete_items gone ops)) ≡ (member z (ids ops) && not (member z gone))
member-delete_items z [] ops = ground arith
member-delete_items z (id ∷ more) ops =
    ground (arith, member-delete_items z more (delete_item id ops), member-delete_item z id ops)
