-- ===== src/Schemas.antt =====
-- src/infrastructure/api/schemas: the bodies of requests and responses, and the checks that
-- their fields declare. A response is kept as the model that it is dumped from: `str` of a UUID and
-- of an amount with two places is one to one, and `json.loads` undoes `json.dumps` on such dicts.
use coffee_shop_api.Prelude.{ℕ, String, Bool, ◌&&◌, List, leb, length, map}
use coffee_shop_api.Decimal.{Decimal, quantize}
use coffee_shop_api.Entities.{
  Uuid, Datetime, Role, OrderStatus, Order, OrderItem, MenuItem, MenuVariation, User,
}

pub record OrderCreate : Type 0 where
  pub product_ids : List Uuid

-- `Field(..., min_length=1, max_length=50)`
abbrev pub is_valid_order : OrderCreate → Bool
is_valid_order body = leb 1 (length body.product_ids) && leb (length body.product_ids) 50

pub record OrderStatusUpdate : Type 0 where
  pub status : OrderStatus

pub record OrderResponse : Type 0 where
  pub id : Uuid
  pub status : OrderStatus
  pub total_price : Decimal
  pub user_id : Uuid
  pub product_ids : List Uuid

-- `OrderResponse(**vars(order))`
abbrev pub order_response : Order → OrderResponse
order_response order = record {
  id = order.id;
  status = order.status;
  total_price = order.total_price;
  user_id = order.user_id;
  product_ids = order.product_ids;
}

pub record OrderItemResponse : Type 0 where
  pub id : Uuid
  pub name : String
  pub variation : String
  pub unit_price : Decimal

-- `OrderItemResponse(**vars(item))`
abbrev pub order_item_response : OrderItem → OrderItemResponse
order_item_response item = record {
  id = item.id;
  name = item.name;
  variation = item.variation;
  unit_price = item.unit_price;
}

pub record OrderDetailResponse : Type 0 where
  pub id : Uuid
  pub status : OrderStatus
  pub total_price : Decimal
  pub created_at : Datetime
  pub items : List OrderItemResponse

pub record PaginatedOrderResponse : Type 0 where
  pub items : List OrderResponse
  pub total : ℕ
  pub page : ℕ
  pub page_size : ℕ

pub record UserResponse : Type 0 where
  pub id : Uuid
  pub email : String
  pub role : Role

-- `UserResponse(id=user.id, email=user.email, role=user.role)`
abbrev pub user_response : User → UserResponse
user_response user = record { id = user.id; email = user.email; role = user.role }

-- the body of POST /users/, and that of POST /auth/sign-in
pub record UserCreate : Type 0 where
  pub email : String
  pub password : String

pub record SignInRequest : Type 0 where
  pub email : String
  pub password : String

pub record TokenResponse : Type 0 where
  pub access_token : String
  pub token_type : String

-- `TokenResponse(access_token=token)`
abbrev pub token_response : String → TokenResponse
token_response token = record { access_token = token; token_type = "bearer" }

pub record MenuVariationResponse : Type 0 where
  pub id : Uuid
  pub variation : String
  pub unit_price : Decimal

pub record MenuItemResponse : Type 0 where
  pub name : String
  pub base_price : Decimal
  pub variations : List MenuVariationResponse

pub record PaginatedMenuResponse : Type 0 where
  pub items : List MenuItemResponse
  pub total : ℕ
  pub page : ℕ
  pub page_size : ℕ

abbrev menu_variation_response : MenuVariation → MenuVariationResponse
menu_variation_response v = record { id = v.id; variation = v.variation; unit_price = v.unit_price }

abbrev pub menu_item_response : MenuItem → MenuItemResponse
menu_item_response item = record {
  name = item.name;
  base_price = item.base_price;
  variations = map menu_variation_response item.variations;
}

-- The JSON document of a response.
pub data Body : Type 0 where
  order_body : OrderResponse → Body
  order_page_body : PaginatedOrderResponse → Body
  order_detail_body : OrderDetailResponse → Body
  user_body : UserResponse → Body
  menu_body : PaginatedMenuResponse → Body

-- `_MoneyDecimal`: an amount is dumped as the text of `v.quantize(Decimal("0.01"))`.
abbrev dump_order_response : OrderResponse → OrderResponse
dump_order_response r = record r { total_price = quantize r.total_price }

abbrev dump_item : OrderItemResponse → OrderItemResponse
dump_item r = record r { unit_price = quantize r.unit_price }

-- `model_dump(mode="json")`
unfoldable pub dump_order : OrderResponse → Body
dump_order r = Body.order_body (dump_order_response r)

unfoldable pub dump_order_page : PaginatedOrderResponse → Body
dump_order_page r = Body.order_page_body (record r { items = map dump_order_response r.items })

unfoldable pub dump_order_detail : OrderDetailResponse → Body
dump_order_detail r =
    Body.order_detail_body
      (record r { total_price = quantize r.total_price; items = map dump_item r.items })

abbrev pub dump_user : UserResponse → Body
dump_user r = Body.user_body r

abbrev dump_variation : MenuVariationResponse → MenuVariationResponse
dump_variation r = record r { unit_price = quantize r.unit_price }

abbrev dump_menu_item : MenuItemResponse → MenuItemResponse
dump_menu_item r = record r {
  base_price = quantize r.base_price;
  variations = map dump_variation r.variations;
}

unfoldable pub dump_menu : PaginatedMenuResponse → Body
dump_menu r = Body.menu_body (record r { items = map dump_menu_item r.items })
