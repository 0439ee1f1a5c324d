-- ===== src/Callback.antt =====
-- src/Interface/Callback.h: an object that stands for a function to call. The parameter pack is one
-- type `A`, a tuple; `W` is the state of the program that the functions work on. A pointer to an
-- object, a member function or a function may be null, and a call through it is then undefined.
use slirp4tinc.Prelude.{Option, some, ◌≡◌, refl}
use slirp4tinc.Prelude.Run.{Run, deref, ◌>>=◌}

-- The interface `Callback`, with its virtual function.
pub record Callback (W A R : Type 0) : Type 0 where
  pub execute : A → W → Run (R × W)

module _ {W A R : Type 0} where
  -- `send(args...)` and `notify(args...)`, which the classes below repeat.
  pub send : Callback W A R → A → W → Run (R × W)
  send c args w = c.execute args w

  pub notify : Callback W A R → A → W → Run (R × W)
  notify c args w = c.execute args w

-- `CalleeMember`: an object of the class `C`, and a member function of it.
pub record CalleeMember (C W A R : Type 0) : Type 0 where
  pub callee : Option C
  pub member_function : Option (C → A → W → Run (R × W))

-- `CalleeMemberWithVar`: the member function takes a stored value first.
pub record CalleeMemberWithVar (C V W A R : Type 0) : Type 0 where
  pub callee : Option C
  pub param : V
  pub member_function : Option (C → V → A → W → Run (R × W))

-- `CalleeStatic` and `CalleeStaticWithVar`: a function that belongs to no object.
pub record CalleeStatic (W A R : Type 0) : Type 0 where
  pub static_function : Option (A → W → Run (R × W))

pub record CalleeStaticWithVar (V W A R : Type 0) : Type 0 where
  pub param : V
  pub static_function : Option (V → A → W → Run (R × W))

module _ {W A R : Type 0} where
  pub member_callback : {C : Type 0} → CalleeMember C W A R → Callback W A R
  member_callback c = record {
    execute = λ args w. (do
      callee ← deref c.callee
      member_function ← deref c.member_function
      member_function callee args w);
  }

  pub member_with_var_callback : {C V : Type 0} → CalleeMemberWithVar C V W A R → Callback W A R
  member_with_var_callback c = record {
    execute = λ args w. (do
      callee ← deref c.callee
      member_function ← deref c.member_function
      member_function callee c.param args w);
  }

  pub static_callback : CalleeStatic W A R → Callback W A R
  static_callback c = record {
    execute = λ args w. (do static_function ← deref c.static_function; static_function args w);
  }

  pub static_with_var_callback : {V : Type 0} → CalleeStaticWithVar V W A R → Callback W A R
  static_with_var_callback c = record {
    execute =
        λ args w. (do static_function ← deref c.static_function; static_function c.param args w);
  }

  -- A member function of an object, and a function with a stored value, are called alike: the object
  -- takes the place of the value.
  pub member_callback-static_with_var_callback :
      {C : Type 0} (callee : C) (f : C → A → W → Run (R × W)) (args : A) (w : W)
      → send (member_callback (record { callee = some callee; member_function = some f })) args w
        ≡ notify
            (static_with_var_callback (record { param = callee; static_function = some f }))
            args
            w
  unfolding send notify member_callback static_with_var_callback
  member_callback-static_with_var_callback callee f args w = refl
