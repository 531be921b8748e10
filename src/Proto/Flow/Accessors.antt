-- ===== src/Proto/Flow/Accessors.antt =====
-- What the changes to a flow leave as it was, and the bound on its footer.
use playit_agent.Common.{ℕ, ◌≤◌, ◌≡◌, refl, none, some, arith}
use mathlib.Core.Option.{map}
use playit_agent.Proto.Flow.{
  UdpFlow, UdpFlowExtension, extension, client_server_id, update_client_server_id, flip, src_addr,
  dst_addr, footer_len, mx_len,
}

-- Flipping a flow exchanges its two addresses, needs a footer of the same length, and undoes itself.
pub flip_lem :
    (f : UdpFlow)
    → (src_addr (flip f) ≡ dst_addr f)
      × (dst_addr (flip f) ≡ src_addr f)
      × (footer_len (flip f) ≡ footer_len f)
      × (flip (flip f) ≡ f)
unfolding flip src_addr dst_addr footer_len
flip_lem (UdpFlow.v4 src dst frag none) = (refl, refl, refl, refl)
flip_lem (UdpFlow.v4 src dst none (some e)) = (refl, refl, refl, refl)
flip_lem (UdpFlow.v4 src dst (some g) (some e)) = (refl, refl, refl, refl)
flip_lem (UdpFlow.v6 src dst none) = (refl, refl, refl, refl)
flip_lem (UdpFlow.v6 src dst (some e)) = (refl, refl, refl, refl)

-- The id of a client's server can be set exactly in a flow that has an extension, and setting it
-- leaves the addresses and the length of the footer as they were.
pub update_client_server_id_lem :
    (id : ℕ) (f : UdpFlow)
    → (client_server_id (update_client_server_id id f)
        ≡ map (λ (e : UdpFlowExtension). id) (extension f))
      × (src_addr (update_client_server_id id f) ≡ src_addr f)
      × (dst_addr (update_client_server_id id f) ≡ dst_addr f)
      × (footer_len (update_client_server_id id f) ≡ footer_len f)
unfolding client_server_id update_client_server_id extension src_addr dst_addr footer_len
update_client_server_id_lem id (UdpFlow.v4 src dst frag none) = (refl, refl, refl, refl)
update_client_server_id_lem id (UdpFlow.v4 src dst none (some e)) = (refl, refl, refl, refl)
update_client_server_id_lem id (UdpFlow.v4 src dst (some g) (some e)) = (refl, refl, refl, refl)
update_client_server_id_lem id (UdpFlow.v6 src dst none) = (refl, refl, refl, refl)
update_client_server_id_lem id (UdpFlow.v6 src dst (some e)) = (refl, refl, refl, refl)

-- No footer is longer than `MX_LEN`.
pub footer_len-mx_len : (f : UdpFlow) → footer_len f ≤ mx_len
unfolding footer_len
footer_len-mx_len (UdpFlow.v4 src dst frag none) = omega arith
footer_len-mx_len (UdpFlow.v4 src dst none (some e)) = omega arith
footer_len-mx_len (UdpFlow.v4 src dst (some g) (some e)) = omega arith
footer_len-mx_len (UdpFlow.v6 src dst none) = omega arith
footer_len-mx_len (UdpFlow.v6 src dst (some e)) = omega arith
