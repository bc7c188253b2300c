-- ===== src/Service/Turn/Received.antt =====
-- The tokens that the client receives of a streamed answer.
use eks_any_model_hosting.Common.{
  ◌≡◌, refl, ap, sym, ◌∙◌, false, List, [], ◌∷◌, ◌++◌, map, append-nil, append_assoc, Option, none,
  some, Text, All, All-append,
}
use eks_any_model_hosting.Json.{Json}
use eks_any_model_hosting.Sse.{done}
use eks_any_model_hosting.Sse.Server.{Sent, token_sent, is_last}
use eks_any_model_hosting.Sse.Server.Frames.{received}
use eks_any_model_hosting.Sse.Server.RoundTrip.{received_all}
use eks_any_model_hosting.Chat.View.Exchange.{texts_of, texts_of-append}
use eks_any_model_hosting.Service.Turn.{joined, parts_of, usage_frames, frames_of}

pub texts_of-tokens :
    (parts : List Text) → texts_of (received_all (map token_sent parts)) ≡ joined parts
unfolding joined
texts_of-tokens [] = refl
texts_of-tokens ([] ∷ parts) = texts_of-tokens parts
texts_of-tokens ((c ∷ part) ∷ parts) = ap (◌++◌ (c ∷ part)) (texts_of-tokens parts)

pub received_all-append :
    (es ds : List Sent) → received_all (es ++ ds) ≡ received_all es ++ received_all ds
received_all-append [] ds = refl
received_all-append (e ∷ es) ds =
    ap (◌++◌ (received e)) (received_all-append es ds)
    ∙ sym (append_assoc (received e) (received_all es) (received_all ds))

texts_of-usage :
    (counts : Option (Json × Json)) → texts_of (received_all (usage_frames counts)) ≡ []
texts_of-usage none = refl
texts_of-usage (some (prompt, completion)) = refl

pub texts_of-answer :
    (parts : List Text) (counts : Option (Json × Json))
    → texts_of (received_all (map token_sent parts ++ usage_frames counts) ++ done ∷ [])
      ≡ joined parts
texts_of-answer parts counts =
    let tokens = map token_sent parts in
    rw
      (
        received_all-append tokens (usage_frames counts),
        texts_of-append (received_all tokens ++ received_all (usage_frames counts)) (done ∷ []),
        texts_of-append (received_all tokens) (received_all (usage_frames counts)),
        texts_of-tokens parts,
        texts_of-usage counts,
        append-nil (joined parts),
      )
      (append-nil (joined parts))

pub texts_of-frames :
    (contents : List Text) (counts : Option (Json × Json))
    → texts_of (received_all (frames_of contents counts) ++ done ∷ []) ≡ joined (parts_of contents)
unfolding frames_of
texts_of-frames contents counts = texts_of-answer (parts_of contents) counts

pub tokens-live : (parts : List Text) → All (λ e. is_last e ≡ false) (map token_sent parts)
tokens-live [] = tt
tokens-live (part ∷ parts) = (refl, tokens-live parts)

usage-live : (counts : Option (Json × Json)) → All (λ e. is_last e ≡ false) (usage_frames counts)
usage-live none = tt
usage-live (some (p, c)) = (refl, tt)

pub answer-live :
    (parts : List Text) (counts : Option (Json × Json))
    → All (λ e. is_last e ≡ false) (map token_sent parts ++ usage_frames counts)
answer-live parts counts =
    All-append (λ e. is_last e ≡ false) (map token_sent parts) (usage_frames counts)
      (tokens-live parts) (usage-live counts)

pub frames-live :
    (contents : List Text) (counts : Option (Json × Json))
    → All (λ e. is_last e ≡ false) (frames_of contents counts)
unfolding frames_of
frames-live contents counts = answer-live (parts_of contents) counts
