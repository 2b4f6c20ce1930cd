-- ===== src/Queue/Delivered.antt =====
-- What is appended to the queue comes back from it.
use kratos_core.Prelude.{
  String, ◌≡◌, ap, ◌∙◌, true, false, ◌||◌, Option, none, some, arith, inl, inr,
}
use kratos_core.Prelude.Eq.{◌==◌, string_eq}
use kratos_core.Prelude.Error.{Error, ok, Result-cases}
use kratos_core.Prelude.Text.{trim_space}
use kratos_core.Queue.{text, Message, Json, Runtime, decode, unmarshal_trimmed, appended, add_queue}

-- JSON that reads back what it wrote, as an object: without spaces around it, not empty and not
-- null.
pub record IsJson {V : Type 0} (j : Json V V) (v : V) : Type 0 where
  pub reads : (body : String) → j.marshal v ≡ ok body → j.unmarshal body ≡ ok v
  pub trimmed : (body : String) → j.marshal v ≡ ok body → trim_space body ≡ body
  pub is_object : (body : String) → j.marshal v ≡ ok body → (body == "" || body == "null") ≡ false

appended_true :
    {V S : Type 0} (j : Json V V) (r : Option Error × S) (t : S)
    → appended j r ≡ (true, t)
    → r ≡ (none, t)
appended_true j (none, s) t h = ground (arith, h)
appended_true j (some e, s) t h = ground (arith, h)

decode-text :
    {V : Type 0} (j : Json V V) (v : V) (body : String)
    → IsJson j v
    → j.marshal v ≡ ok body
    → decode j (record { id = ""; data_value = text body }) ≡ ok v
unfolding decode
decode-text j v body is m =
    ap (λ x. unmarshal_trimmed j x) (is.trimmed body m)
    ∙ (rw (is.is_object body m) (is.reads body m))

-- If a value is appended to a queue that keeps its messages, and no error is reported, the message
-- that the queue then holds last decodes to that value. The text that JSON writes for the value
-- must be read back by JSON, have no space around it, and be neither empty nor null.
pub decode-add_queue :
    {V S : Type 0} (j : Json V V) (q : Runtime V S) (last : S → Message V)
    → ((name : String) (m : Message V) (s t : S) → q.append name m s ≡ (none, t) → last t ≡ m)
    → (name : String) (v : V) (s t : S) → IsJson j v
    → add_queue j (some q) name v s ≡ (true, t)
    → decode j (last t) ≡ ok v
unfolding add_queue decode
decode-add_queue j q last keeps name v s t is h = elim (Result-cases (j.marshal v)) [
  | inr (e, m) ↦ ground (arith, h, m)
  | inl (body, m) ↦
      let r =
        appended_true j (q.append name (record { id = ""; data_value = text body }) s) t
          (rw m at h) in
      ap (λ x. decode j x) (keeps name (record { id = ""; data_value = text body }) s t r)
      ∙ decode-text j v body is m
]
