-- ===== src/Server/Io/Runs.antt =====
-- Computations of src/internal/tftp_server_impl.cpp that return, with their events, and how such
-- computations are put together.
use tftpserver.Prelude.{
  List, [], ◌∷◌, ◌++◌, ◌≡◌, refl, sym, ◌∙◌, append-nil, append_assoc, append_snoc,
}
use tftpserver.Server.{Event, World, returned, emit, Thrown, M, pure, bind_result}

-- A computation that returns `end` in world `after`, with the events in between.
pub record Ran {A : Type 0} (before : World) (r : Thrown A × World) (P : List Event → A → Type 0)
    : Type 0 where
  pub end : A
  pub after : World
  pub events : List Event
  pub returns : r ≡ (returned end, after)
  pub trace_is : after.trace ≡ before.trace ++ events
  pub holds : P events end

-- One computation behind another.
pub Ran-bind :
    {A B : Type 0} {w : World} {m : Thrown A × World} {P : List Event → A → Type 0}
    {Q R : List Event → B → Type 0} (f : A → M B) (r : Ran w m P)
    → (q : Ran r.after (f r.end r.after) Q) → R (r.events ++ q.events) q.end
    → Ran w (bind_result m f) R
Ran-bind {w = w} f r q holds = record {
  end = q.end;
  after = q.after;
  events = r.events ++ q.events;
  returns = rw r.returns q.returns;
  trace_is = q.trace_is ∙ rw r.trace_is (append_assoc w.trace r.events q.events);
  holds = holds;
}

-- A computation that returns at once.
pub Ran-pure :
    {A : Type 0} {P : List Event → A → Type 0} (w : World) (a : A)
    → P [] a
    → Ran w (returned a, w) P
Ran-pure w a p = record {
  end = a;
  after = w;
  events = [];
  returns = refl;
  trace_is = sym (append-nil w.trace);
  holds = p;
}

-- The same run, with another statement about it.
pub Ran-with :
    {A : Type 0} {w : World} {m : Thrown A × World} {P Q : List Event → A → Type 0} (r : Ran w m P)
    → Q r.events r.end
    → Ran w m Q
Ran-with r q = record {
  end = r.end;
  after = r.after;
  events = r.events;
  returns = r.returns;
  trace_is = r.trace_is;
  holds = q;
}

-- A function of the result.
pub Ran-map :
    {A B : Type 0} {w : World} {m : Thrown A × World} {P : List Event → A → Type 0}
    {R : List Event → B → Type 0} (f : A → B) (r : Ran w m P)
    → R r.events (f r.end)
    → Ran w (bind_result m (λ a. pure (f a))) R
Ran-map f r holds = record {
  end = f r.end;
  after = r.after;
  events = r.events;
  returns = rw r.returns;
  trace_is = r.trace_is;
  holds = holds;
}

-- A fixed result behind a computation.
pub Ran-then :
    {A B : Type 0} {w : World} {m : Thrown A × World} {P : List Event → A → Type 0}
    {R : List Event → B → Type 0} (r : Ran w m P) (b : B)
    → R r.events b
    → Ran w (bind_result m (λ _. pure b)) R
Ran-then r b holds = record {
  end = b;
  after = r.after;
  events = r.events;
  returns = rw r.returns;
  trace_is = r.trace_is;
  holds = holds;
}

-- A computation behind an event.
pub Ran-emit :
    {A : Type 0} {m : Thrown A × World} {P Q : List Event → A → Type 0} (w : World) (e : Event)
    (r : Ran (emit e w) m P)
    → Q (e ∷ r.events) r.end
    → Ran w m Q
Ran-emit w e r q = record {
  end = r.end;
  after = r.after;
  events = e ∷ r.events;
  returns = r.returns;
  trace_is = r.trace_is ∙ append_snoc w.trace e r.events;
  holds = q;
}
