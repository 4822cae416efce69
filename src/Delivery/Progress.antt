-- ===== src/Delivery/Progress.antt =====
-- The loop over the pending deliveries: which are made, and which are left.
use mossbridge.Delivery.Marks.{ids_of}
use mossbridge.Delivery.Collect.{Pending}
use mossbridge.Delivery.Flush.{send_reply_delivery, send_pending, mark_sent}
use mossbridge.Delivery.Failures.{Failure}
use mossbridge.Delivery.Runs.{is_text, add_all_sent, add_sent}
use mossbridge.Delivery.Actions.{Reader}
use mossbridge.Delivery.Sending.{Services, Outcome, sent, failed, provider_of}
use mossbridge.Delivery.Retry.{Flow}
use mossbridge.Delivery.Steps.{texts, item_texts, send_reply_delivery-Step, Step}
use mossbridge.Prelude.{
  append_assoc, append-nil, ◌&&◌, sym, false, ◌≡◌, refl, sym, ap, ◌∙◌, Bool, true, false, Option,
  none, some, List, [], ◌∷◌, ◌++◌, if◌then◌else◌, Text, is_some,
}

module _ (s : Services) (r : Reader) (runtime_id : Text) where
  -- The texts of the deliveries in their order, the first after the prefix.
  abbrev pub all_texts : Bool → Text → List Pending → List Text
  all_texts first prefix [] = []
  all_texts first prefix (p ∷ ps) =
      item_texts s r runtime_id p.content (first && is_text prefix) prefix
      ++ all_texts false (if first then [] else prefix) ps

  abbrev pub prefix_after : Bool → Text → List Pending → Text
  prefix_after first prefix [] = prefix
  prefix_after first prefix (_ ∷ ps) = prefix_after false (if first then [] else prefix) ps

  abbrev pub rest_of : Option (List Pending × Failure) → List Pending
  rest_of none = []
  rest_of (some (ps, e)) = ps

  abbrev pub failure_of : Option (List Pending × Failure) → Option Failure
  failure_of none = none
  failure_of (some (ps, e)) = some e

  -- A delivery with the prefix before its text, if it is the first and there is a prefix.
  abbrev pub delivered : Bool → Pending → Flow → Flow × Outcome
  delivered first p f =
      send_reply_delivery s r runtime_id p.content (first && is_text f.run.deferred_reply_prefix) f

  -- Each of the deliveries is sent from the flow that the one before it leaves, and marked.
  pub data Sends : Bool → List Pending → Flow → Bool → Flow → Type 0 where
    none_sent : {first : Bool} {f : Flow} → Sends first [] f first f
    one_sent :
        {first last : Bool} {p : Pending} {ps : List Pending} {f f1 g : Flow}
        → delivered first p f ≡ (f1, sent)
        → Sends false ps (mark_sent s r runtime_id first p.item_id f1) last g
        → Sends first (p ∷ ps) f last g

  -- Nothing is left, or the first that is left fails from the flow that is reached.
  pub data Stopped (first : Bool) (f g : Flow) : List Pending → Option Failure → Type 0 where
    all_sent : g ≡ f → Stopped first f g [] none
    first_fails :
        {p : Pending} {ps : List Pending} {e : Failure}
        → delivered first p f ≡ (g, failed e)
        → Stopped first f g (p ∷ ps) (some e)

  -- The deliveries up to the first failure were made, once each and in order.
  pub record Progress (first : Bool) (ps rest : List Pending) (o : Option Failure) (f g : Flow)
      : Type 0 where
    pub done : List Pending
    pub reached : Flow
    pub still_first : Bool
    pub sends : Sends first done f still_first reached
    pub stopped : Stopped still_first reached g rest o
    pub split : ps ≡ done ++ rest
    pub items : g.run.items ≡ f.run.items
    pub item_order : g.run.item_order ≡ f.run.item_order
    pub provider : provider_of g.run.reply_target ≡ provider_of f.run.reply_target
    pub marked : g.run.sent_item_ids ≡ add_all_sent f.run.sent_item_ids (ids_of done)
    pub prefix : g.run.deferred_reply_prefix ≡ prefix_after first f.run.deferred_reply_prefix done
    pub told : texts g.wire ≡ texts f.wire ++ all_texts first f.run.deferred_reply_prefix done
    pub deferred : g.wire.deferred ≡ f.wire.deferred

  next-Progress :
      (first : Bool) (p : Pending) (ps rest : List Pending) (o : Option Failure) (f f1 g : Flow)
      → delivered first p f ≡ (f1, sent)
      → Step s r runtime_id
          (item_texts s r runtime_id p.content
            (first && is_text f.run.deferred_reply_prefix)
            f.run.deferred_reply_prefix)
          f
          f1
          sent
      → Progress false ps rest o (mark_sent s r runtime_id first p.item_id f1) g
      → Progress first (p ∷ ps) rest o f g
  next-Progress first p ps rest o f f1 g q st h = record {
    done = p ∷ h.done;
    reached = h.reached;
    still_first = h.still_first;
    sends = one_sent q h.sends;
    stopped = h.stopped;
    split = ap (λ (l : List Pending). p ∷ l) h.split;
    items = h.items ∙ st.same.items;
    item_order = h.item_order ∙ st.same.item_order;
    provider = h.provider ∙ st.same.provider;
    marked =
        h.marked
        ∙ ap (λ (l : List Text). add_all_sent (add_sent l p.item_id) (ids_of h.done))
            st.same.sent_item_ids;
    prefix =
        h.prefix
        ∙ ap (λ (x : Text). prefix_after false (if first then [] else x) h.done) st.same.prefix;
    told =
        h.told
        ∙ ap (λ (x : Text). texts f1.wire ++ all_texts false (if first then [] else x) h.done)
            st.same.prefix
        ∙ ap
            (λ (l : List Text).
              l ++ all_texts false (if first then [] else f.run.deferred_reply_prefix) h.done)
            st.told
        ∙ append_assoc (texts f.wire)
            (item_texts s r runtime_id p.content (first && is_text f.run.deferred_reply_prefix)
              f.run.deferred_reply_prefix)
            (all_texts false (if first then [] else f.run.deferred_reply_prefix) h.done);
    deferred = h.deferred ∙ st.deferred;
  }

  stop-Progress :
      (first : Bool) (p : Pending) (ps : List Pending) (f g : Flow) (e : Failure) (ts : List Text)
      → delivered first p f ≡ (g, failed e)
      → Step s r runtime_id ts f g (failed e)
      → Progress first (p ∷ ps) (p ∷ ps) (some e) f g
  stop-Progress first p ps f g e ts q st = record {
    done = [];
    reached = f;
    still_first = first;
    sends = none_sent;
    stopped = first_fails q;
    split = refl;
    items = st.same.items;
    item_order = st.same.item_order;
    provider = st.same.provider;
    marked = st.same.sent_item_ids;
    prefix = st.same.prefix;
    told = st.told ∙ sym (append-nil (texts f.wire));
    deferred = st.deferred;
  }

  empty-Progress : (first : Bool) (f : Flow) → Progress first [] [] none f f
  empty-Progress first f = record {
    done = [];
    reached = f;
    still_first = first;
    sends = none_sent;
    stopped = all_sent refl;
    split = refl;
    items = refl;
    item_order = refl;
    provider = refl;
    marked = refl;
    prefix = refl;
    told = sym (append-nil (texts f.wire));
    deferred = refl;
  }

  abbrev go_on :
      Bool → Pending → List Pending → Flow → Outcome → Flow × Option (List Pending × Failure)
  go_on first p ps f sent =
      send_pending s r runtime_id false ps (mark_sent s r runtime_id first p.item_id f)
  go_on first p ps f (failed e) = (f, some (p ∷ ps, e))

  go_on-Progress :
      (first : Bool) (p : Pending) (ps : List Pending) (f f1 : Flow) (o : Outcome)
      → is_some f.run.reply_target ≡ true
      → ((f' : Flow)
          → is_some f'.run.reply_target ≡ true
          → let (g, rest) = send_pending s r runtime_id false ps f' in
            Progress false ps (rest_of rest) (failure_of rest) f' g)
      → delivered first p f ≡ (f1, o)
      → Step s r runtime_id
          (item_texts s r runtime_id p.content
            (first && is_text f.run.deferred_reply_prefix)
            f.run.deferred_reply_prefix)
          f
          f1
          o
      → let (g, rest) = go_on first p ps f1 o in
        Progress first (p ∷ ps) (rest_of rest) (failure_of rest) f g
  go_on-Progress first p ps f f1 sent a ih q st =
      let f2 = mark_sent s r runtime_id first p.item_id f1 in
      let result = send_pending s r runtime_id false ps f2 in
      next-Progress first p ps (rest_of result.1) (failure_of result.1) f f1 result.0 q st
        (ih f2 (st.same.aimed ∙ a))
  go_on-Progress first p ps f f1 (failed e) a ih q st =
      stop-Progress first p ps f f1 e
        (item_texts s r runtime_id p.content (first && is_text f.run.deferred_reply_prefix)
          f.run.deferred_reply_prefix)
        q st

  pub send_pending-Progress :
      (first : Bool) (ps : List Pending) (f : Flow)
      → is_some f.run.reply_target ≡ true
      → let (g, rest) = send_pending s r runtime_id first ps f in
        Progress first ps (rest_of rest) (failure_of rest) f g
  unfolding send_pending
  send_pending-Progress first [] f h = empty-Progress first f
  send_pending-Progress first (p ∷ ps) f h =
      let prepend = first && is_text f.run.deferred_reply_prefix in
      let step = send_reply_delivery s r runtime_id p.content prepend f in
      go_on-Progress first p ps f step.0 step.1 h (send_pending-Progress false ps) refl
        (send_reply_delivery-Step s r runtime_id p.content prepend f h)
