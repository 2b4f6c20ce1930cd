-- ===== src/LocalGrpc/Invoke/Chain.antt =====
-- The nesting of the client interceptors, and the reply of a call.
use kratos_core.Prelude.{
  ℕ, zero, suc, String, ◌≡◌, refl, ap, ◌∙◌, Option, none, some, List, [], ◌∷◌, length,
}
use kratos_core.Prelude.Eq.{string_eq}
use kratos_core.LocalGrpc.Message.{Any, Md, CallOption, Memory, apply_call_options}
use kratos_core.LocalGrpc.Registry.{Conn}
use kratos_core.LocalGrpc.Invoke.{
  Context, Invoker, Handler, invoke, wrap, get_elem?, nest, invoke_call, new_stream_call,
}

-- The interceptors that are not `nil`, the first one outermost.
abbrev pub around {ℓ} : {A : Type ℓ} → List (Option (A → A)) → A → A
around [] base = base
around (none ∷ rest) base = around rest base
around (some interceptor ∷ rest) base = interceptor (around rest base)

abbrev take {ℓ} : {A : Type ℓ} → ℕ → List A → List A
take zero xs = []
take (suc n) [] = []
take (suc n) (x ∷ xs) = x ∷ take n xs

module _ {ℓ} {A : Type ℓ} where
  take-length : (xs : List (Option (A → A))) → take (length xs) xs ≡ xs
  take-length [] = refl
  take-length (x ∷ xs) = ap (λ l. x ∷ l) (take-length xs)

  around-take :
      (xs : List (Option (A → A))) (n : ℕ) (base : A)
      → around (take n xs) (wrap (get_elem? xs n) base) ≡ around (take (suc n) xs) base
  around-take [] zero base = refl
  around-take [] (suc n) base = refl
  around-take (none ∷ xs) zero base = refl
  around-take (some i ∷ xs) zero base = refl
  around-take (none ∷ xs) (suc n) base = around-take xs n base
  around-take (some i ∷ xs) (suc n) base = ap i (around-take xs n base)

  nest-take :
      (xs : List (Option (A → A))) (n : ℕ) (base : A) → nest xs n base ≡ around (take n xs) base
  unfolding nest
  nest-take xs zero base = refl
  nest-take xs (suc n) base = nest-take xs n _ ∙ around-take xs n base

  -- `NewStream` calls the interceptors that are not `nil`, each around the later ones, and the last
  -- around `newStream`.
  pub new_stream_call-around :
      (interceptors : List (Option (A → A))) (streamer : A)
      → new_stream_call interceptors streamer ≡ around interceptors streamer
  unfolding new_stream_call
  new_stream_call-around xs base =
      nest-take xs (length xs) base ∙ ap (λ l. around l base) (take-length xs)

module _ (join : List Md → Md) (handler : Handler) (conn : Conn) (interceptor : Option ℕ) where
  -- `Invoke` is the interceptors that are not `nil`, each around the later ones, and the last around `invoke`, with
  -- the metadata that the call leaves written to its options.
  pub invoke_call-around :
      (interceptors : List (Option (Invoker → Invoker))) (ctx : Context) (method : String)
      (args reply : Any) (options : List CallOption) (memory : Memory) (trace : List String)
      → let result = around interceptors (invoke handler conn interceptor) ctx method args (record {
        reply = reply;
        response = record { header = []; trailer = [] };
        trace = trace;
      }) in
        invoke_call join handler conn interceptor interceptors ctx method args reply options memory
          trace
        ≡ (result, apply_call_options join options result.1.response memory)
  unfolding invoke_call
  invoke_call-around interceptors ctx method args reply options memory trace =
      ap
        (λ (f : Invoker).
          let x = f ctx method args (record {
            reply = reply;
            response = record { header = []; trailer = [] };
            trace = trace;
          }) in
          (x, apply_call_options join options x.1.response memory))
        (nest-take interceptors (length interceptors) (invoke handler conn interceptor)
          ∙ ap (λ l. around l (invoke handler conn interceptor)) (take-length interceptors))
