-- ===== src/Tests/Scripts.antt =====
-- A run of the script that pays 60 with the agent's own wallet.
use ethonline.Common.{true, [], ◌∷◌}
use ethonline.Common.Text.{codes}
use ethonline.Common.Results.{ok}
use ethonline.X402.Spending.{Requirements}
use ethonline.Scripts.{AuthorizePaymentResponse, Services, PayResourceDeps, pay_x402_resource}
use ethonline.Scripts.Paid.{SignsAuthorized, pay_x402_resource-SignsAuthorized}
use ethonline.Tests.Data.{usdc, vendor}

abbrev accept : Requirements
accept = record { network = codes "base"; asset = usdc; pay_to = vendor; amount = codes "60" }

abbrev allowed : AuthorizePaymentResponse
allowed = record {
  action_id = codes "act-1";
  decision = codes "ALLOW";
  risk_score = 10;
  reasons = [];
}

abbrev services : Services
services = record {
  fetch_status = λ url. ok 402;
  get_payment_required = λ url. ok (accept ∷ []);
  post_authorization = λ dto. ok (record { is_ok = true; body = ok allowed });
  on_authorized = λ a. ok tt;
  create_payment_payload = λ client accepts. ok (codes "payload");
  fetch_paid = λ url header. ok (record {
    is_ok = true;
    settlement = ok (true, codes "0xAB");
    data_body = ok (codes "data");
  });
  post_settlement = λ id hash. ok (record { is_ok = true; body = ok tt });
}

abbrev deps : PayResourceDeps
deps = record {
  base_url = codes "https://shop";
  network = codes "base";
  usdc_address = usdc;
  resource_path = codes "/x";
  justification = codes "data";
}

pay_x402_resource-SignsAuthorized_example :
    SignsAuthorized services deps (pay_x402_resource services deps).1
pay_x402_resource-SignsAuthorized_example = pay_x402_resource-SignsAuthorized services deps
