-- ===== src/StoreLog/Writer/Last.antt =====
-- In an export that the order takes, `meta`'s calls are the last ones.
use yurt_playground.Base.{
  ◌≡◌, refl, ap, subst, true, List, [], ◌∷◌, ◌++◌, some, Text, ok, length, text_eq, text_eq_iff,
  inl, inr, Bool-cases,
}
use yurt_playground.StoreLog.{StoreExportOrder, StoreCall, writes, sets_length, meta}
use yurt_playground.StoreLog.Reader.Bound.{call_name}
use yurt_playground.StoreLog.Reader.Held.{sent, kept}
use yurt_playground.StoreLog.Writer.{order_call, Accepts}
use yurt_playground.StoreLog.Writer.Metas.{AtMeta, Ends, write-Ends, set_length-Ends, in_meta}

order_call-Ends :
    (call : StoreCall) (o next : StoreExportOrder) (file : Text)
    → AtMeta o.phase o.opened
    → order_call call o ≡ (next, ok file)
    → Ends o (call_name call) (next, ok file)
order_call-Ends (writes name offset bytes) o next file at e =
    subst (Ends o name) e (write-Ends name (some offset) (length bytes) o at)
order_call-Ends (sets_length name n) o next file at e =
    subst (Ends o name) e (set_length-Ends name (some n) o at)

-- From `meta` on, every call names it.
kept_all :
    (calls : List StoreCall) (o last : StoreExportOrder)
    → AtMeta o.phase o.opened
    → in_meta o.phase ≡ true
    → Accepts o calls last
    → (sent calls ≡ []) × (kept calls ≡ calls)
kept_all [] o last at later taken = (refl, refl)
kept_all (call ∷ calls) o last at later (next, file, e, rest) =
    let ends = order_call-Ends call o next file at e in
    let others = kept_all calls next last ends.0 (ends.1 (ends.2 later)) rest in
    rw ((text_eq_iff (call_name call) meta).1 (ends.2 later))
      (others.0, ap (λ t. call ∷ t) others.1)

pub sent-kept :
    (calls : List StoreCall) (o last : StoreExportOrder)
    → AtMeta o.phase o.opened
    → Accepts o calls last
    → sent calls ++ kept calls ≡ calls
sent-kept [] o last at taken = refl
sent-kept (call ∷ calls) o last at (next, file, e, rest) =
    let ends = order_call-Ends call o next file at e in
    elim (Bool-cases (text_eq (call_name call) meta)) [
      | inl is_meta ↦
          let others =
            kept_all calls next last ends.0 (ends.1 ((text_eq_iff (call_name call) meta).0 is_meta))
              rest in
          rw (is_meta, others.0) (ap (λ t. call ∷ t) others.1)
      | inr other ↦ rw other (ap (λ t. call ∷ t) (sent-kept calls next last ends.0 rest))
    ]
